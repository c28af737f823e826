-- ===== src/Nfqlb/Sets.antt =====
-- pkg/nfqlb/set.go: the nftables sets of the destination addresses.
pub mod Update
pub mod Bytes
pub mod Ranges
use l_3_4_gateway_api_poc.Base.{
  true, false, Option, none, some, List, [], ◌∷◌, ◌++◌, Text, text_discrete, if◌then◌else◌, lookup,
  insert, delete, ◌==◌,
}
use l_3_4_gateway_api_poc.Net.{Ip, IpNet, is_v4, to4, mask_size, broadcast_from_ip_net, next_ip}
use l_3_4_gateway_api_poc.Nfqlb.Errors.{
  Error, Errors, set_delete_failed, set_add_failed, flush_failed,
}
use l_3_4_gateway_api_poc.Nfqlb.Platform.{
  Platform, Family, SetElement, NftMessage, set_delete_elements, set_add_elements,
}

-- A start and an end, as `ipNetToSetElement` and `getCurrentElements` make them.
abbrev pub Range : Type 0
Range = List SetElement

-- `elem(cidr, previous)` of the loop in `getCurrentElements`: the end that was seen last, if the
-- element before was an end.
unfoldable pub pair_elements : Option SetElement → List SetElement → List Range
pair_elements previous [] = []
pair_elements previous (element ∷ elements) =
    let open_end = pair_elements (some element) elements in
    let closed = pair_elements none elements in
    if element.interval_end
    then open_end
    else elim previous [ none ↦ closed | some stop ↦ (element ∷ stop ∷ []) ∷ closed ]

module _ (p : Platform) where
  open p use {World, parse_cidr, ip_string, net_string, get_set_elements, queue_message, flush}

  unfoldable pub get_current_elements : Family → World → Option (List Range)
  unfolding pair_elements
  get_current_elements family w = elim (get_set_elements family w) [
    | none ↦ none
    | some elements ↦ some (pair_elements none elements)
  ]

  -- `fmt.Sprintf("%v-%v", ipStart, ipEnd)`, or the empty text for any other length.
  unfoldable pub set_element_to_string : Range → Text
  set_element_to_string (start ∷ stop ∷ []) = ip_string start.key ++ b'-' ∷ ip_string stop.key
  set_element_to_string _ = []

  unfoldable pub new_elements_map : List Range → List (Text × Range) → List (Text × Range)
  unfolding set_element_to_string
  new_elements_map [] m = m
  new_elements_map (element ∷ elements) m =
      new_elements_map elements (insert text_discrete (set_element_to_string element) element m)

  -- A queue of messages, with the errors met so far.
  pub record Batch : Type 0 where
    pub messages : List NftMessage
    pub errors : Errors

  unfoldable pub enqueue : NftMessage → Error → Batch → Batch
  enqueue message failed b =
      if queue_message message
      then record b { messages = b.messages ++ message ∷ [] }
      else record b { errors = failed ∷ b.errors }

  -- The loop "to remove": what is left of the new elements, and the batch.
  unfoldable pub remove_elements :
      Family → List Range → List (Text × Range) → Batch → List (Text × Range) × Batch
  unfolding set_element_to_string enqueue
  remove_elements family [] new b = (new, b)
  remove_elements family (element ∷ elements) new b =
      let key = set_element_to_string element in
      let kept = remove_elements family elements (delete text_discrete key new) b in
      let dropped =
        remove_elements family elements new
          (enqueue (set_delete_elements family element) set_delete_failed b) in
      elim (lookup text_discrete key new) [ none ↦ dropped | some _ ↦ kept ]

  -- The loop "to add".
  unfoldable pub add_elements : Family → List (Text × Range) → Batch → Batch
  unfolding enqueue
  add_elements family [] b = b
  add_elements family ((_, element) ∷ new) b =
      add_elements family new (enqueue (set_add_elements family element) set_add_failed b)

  -- The messages that `updateSet` sends, and the errors before the flush.
  unfoldable pub plan_update : Family → List Range → List Range → Batch
  unfolding new_elements_map remove_elements add_elements
  plan_update family current_elements new_elements =
      let (new, b) =
        remove_elements family current_elements (new_elements_map new_elements [])
          (record { messages = []; errors = [] }) in
      add_elements family new b

  unfoldable pub update_set : Family → List Range → List Range → World → Errors × World
  unfolding plan_update
  update_set family current_elements new_elements w =
      let b = plan_update family current_elements new_elements in
      let (flushed, w1) = flush b.messages w in
      (if flushed then b.errors else flush_failed ∷ b.errors, w1)

  -- The loop of `getIPv4AndIPv6`, with the texts of the networks that were taken.
  unfoldable pub collect_ip_nets : List Text → List (Text × Unit {0}) → List IpNet × List IpNet
  collect_ip_nets [] used = ([], [])
  collect_ip_nets (cidr ∷ cidrs) used =
      let skip = collect_ip_nets cidrs used in
      elim (parse_cidr cidr) [
        | none ↦ skip
        | some (_, ip_net) ↦
            let (cidr_length, ip_length) = mask_size ip_net.mask in
            let key = net_string ip_net in
            let (ipv4, ipv6) = collect_ip_nets cidrs (insert text_discrete key tt used) in
            if cidr_length == ip_length
            then elim (lookup text_discrete key used) [
              | some _ ↦ skip
              | none ↦ if is_v4 ip_net.ip then (ip_net ∷ ipv4, ipv6) else (ipv4, ip_net ∷ ipv6)
            ]
            else skip
      ]

  unfoldable pub get_ipv4_and_ipv6 : List Text → List IpNet × List IpNet
  unfolding collect_ip_nets
  get_ipv4_and_ipv6 cidr_list = collect_ip_nets cidr_list []

-- The four-byte forms of both ends, if both have one.
abbrev pub shorten : Ip → Ip → Ip × Ip
shorten start stop = elim (to4 start) [
  | none ↦ (start, stop)
  | some start_v4 ↦ elim (to4 stop) [ none ↦ (start, stop) | some stop_v4 ↦ (start_v4, stop_v4) ]
]

-- `none` is the index panic of a mask that is too short.
unfoldable pub ip_net_to_set_element : IpNet → Option Range
ip_net_to_set_element ip_net = elim (broadcast_from_ip_net ip_net) [
  | none ↦ none
  | some broadcast ↦
      let (start, stop) = shorten ip_net.ip (next_ip broadcast) in
      some (
        record { key = start; interval_end = false }
        ∷ record { key = stop; interval_end = true }
        ∷ [])
]

unfoldable pub ip_nets_to_set_elements : List IpNet → Option (List Range)
unfolding ip_net_to_set_element
ip_nets_to_set_elements [] = some []
ip_nets_to_set_elements (ip_net ∷ ip_nets) = elim (ip_net_to_set_element ip_net) [
  | none ↦ none
  | some element ↦ elim (ip_nets_to_set_elements ip_nets) [
    | none ↦ none
    | some elements ↦ some (element ∷ elements)
  ]
]
