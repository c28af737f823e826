-- ===== src/Nfqlb/Service.antt =====
-- The `Service` of pkg/nfqlb/nfqlb.go with the configuration that it embeds. Each method holds the
-- service's mutex from its first line to its return, so a call is one step. The closure and the
-- path that a service keeps are those of its load balancer; its operations are given them.
use l_3_4_gateway_api_poc.Base.{ℕ, List, Text, ℤ, pos, int_add}
use l_3_4_gateway_api_poc.Nfqlb.Config.{ServiceConfig}

pub record Service : Type 0 where
  pub config : ServiceConfig
  pub open config use *
  pub name : Text
  -- key: identifier, value: IPs
  pub targets : List (ℤ × List Text)
  pub offset : ℕ

-- `identifier + s.offset`
abbrev pub fwmark_of : Service → ℤ → ℤ
fwmark_of s identifier = int_add identifier (pos s.offset)
