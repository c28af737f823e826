-- ===== src/Nfqlb/Flows.antt =====
-- The flows of a service: `AddFlow`, `DeleteFlow` and the flow list of pkg/nfqlb/nfqlb.go.
use l_3_4_gateway_api_poc.Base.{
  Bool, Option, none, some, List, [], ◌∷◌, ◌++◌, Text, codes, itoa, join, if◌then◌else◌,
}
use l_3_4_gateway_api_poc.Nfqlb.Errors.{
  Errors, flow_list_failed, unmarshal_failed, set_flow_failed, delete_flow_failed,
}
use l_3_4_gateway_api_poc.Nfqlb.Netfilter.{set_destination_cidrs}
use l_3_4_gateway_api_poc.Nfqlb.Platform.{Platform, Flow}
use l_3_4_gateway_api_poc.Nfqlb.Service.{Service}
use l_3_4_gateway_api_poc.Nfqlb.Utils.{any_ip_range, any_port_range}

-- The elements of a slice; a nil slice has none.
abbrev pub elements {ℓ} : {A : Type ℓ} → Option (List A) → List A
elements none = []
elements (some xs) = xs

-- `--flag=a,b`, unless the slice is nil or `skip` holds of it.
abbrev pub flag : Text → (List Text → Bool) → Option (List Text) → List Text
flag name skip none = []
flag name skip (some xs) = if skip xs then [] else (name ++ join b',' xs) ∷ []

abbrev never : List Text → Bool
never xs = Bool.false

unfoldable pub flow_set_args : Text → Flow → List Text
flow_set_args service flow =
    codes "flow-set"
    ∷ (codes "--name=" ++ flow.name)
    ∷ (codes "--target=" ++ service)
    ∷ (codes "--prio=" ++ itoa flow.priority)
    ∷ (codes "--protocols=" ++ join b',' (elements flow.protocols))
    ∷ (flag (codes "--dsts=") never flow.destination_cidrs
        ++ (flag (codes "--srcs=") any_ip_range flow.source_cidrs
            ++ (flag (codes "--dports=") any_port_range flow.destination_port_ranges
                ++ (flag (codes "--sports=") any_port_range flow.source_port_ranges
                    ++ flag (codes "--match=") never flow.byte_matches))))

unfoldable pub flow_delete_args : Flow → List Text
flow_delete_args flow = codes "flow-delete" ∷ (codes "--name=" ++ flow.name) ∷ []

abbrev pub all_destination_cidrs : List Flow → List Text
all_destination_cidrs [] = []
all_destination_cidrs (flow ∷ flows) =
    elements flow.destination_cidrs ++ all_destination_cidrs flows

-- The flow list, or the errors.
pub data Listing : Type 0 where
  listed : List Flow → Listing
  unlisted : Errors → Listing

module _ (p : Platform) (path : Text) where
  open p use {World, run_command, unmarshal_flows}

  abbrev pub parse_flows : Text → Listing
  parse_flows output = elim (unmarshal_flows output) [
    | none ↦ unlisted (unmarshal_failed ∷ [])
    | some flows ↦ listed flows
  ]

  unfoldable pub flow_list : World → Listing × World
  flow_list w =
      let (result, w1) = run_command path (codes "flow-list" ∷ []) w in
      elim result [
        | none ↦ (unlisted (flow_list_failed ∷ []), w1)
        | some output ↦ (parse_flows output, w1)
      ]

  -- `none` is a panic, here and below.
  unfoldable pub update_nf_queue_destination_cidrs : World → Option (Errors × World)
  unfolding flow_list
  update_nf_queue_destination_cidrs w =
      let (listing, w1) = flow_list w in
      elim listing [
        | unlisted errors ↦ some (errors, w1)
        | listed flows ↦ set_destination_cidrs p (all_destination_cidrs flows) w1
      ]

  -- `AddFlow` and `DeleteFlow` return one error for either step.
  abbrev pub wrap : Errors → Option (Errors × World) → Option (Errors × World)
  wrap context none = none
  wrap context (some ([], w)) = some ([], w)
  wrap context (some (e ∷ es, w)) = some (context ++ e ∷ es, w)

  unfoldable pub add_flow : Service → Flow → World → Option (Errors × World)
  unfolding flow_set_args update_nf_queue_destination_cidrs
  add_flow s flow w =
      let (result, w1) = run_command path (flow_set_args s.name flow) w in
      elim result [
        | none ↦ some (set_flow_failed ∷ [], w1)
        | some _ ↦ wrap (set_flow_failed ∷ []) (update_nf_queue_destination_cidrs w1)
      ]

  unfoldable pub delete_flow : Service → Flow → World → Option (Errors × World)
  unfolding flow_delete_args update_nf_queue_destination_cidrs
  delete_flow s flow w =
      let (result, w1) = run_command path (flow_delete_args flow) w in
      elim result [
        | none ↦ some (delete_flow_failed ∷ [], w1)
        | some _ ↦ wrap (set_flow_failed ∷ []) (update_nf_queue_destination_cidrs w1)
      ]
