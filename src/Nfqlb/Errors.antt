-- ===== src/Nfqlb/Errors.antt =====
-- The errors of pkg/nfqlb. A Go `error` is a list of them: empty for nil, and the newest first
-- where `%w; %w` joins one more to those before.
use l_3_4_gateway_api_poc.Base.{List}

pub data Error : Type 0 where
  identifier_offset queue_format invalid_ip wrong_ip_family : Error
  init_failed delete_service_failed delete_target_failed delete_flows_failed : Error
  flow_list_failed unmarshal_failed set_flow_failed delete_flow_failed : Error
  activate_failed deactivate_failed : Error
  rule_add_failed route_add_failed rule_del_failed route_del_failed : Error
  neigh_list_failed neigh_del_failed : Error
  get_set_elements_failed set_delete_failed set_add_failed flush_failed : Error

abbrev pub Errors : Type 0
Errors = List Error
