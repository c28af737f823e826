-- ===== src/NetworkAttachment.antt =====
-- pkg/networkattachment: the addresses that a pod has in the networks of a gateway.
use l_3_4_gateway_api_poc.Base.{
  Option, none, some, List, [], ◌∷◌, ◌++◌, Text, text_discrete, codes, lookup, has, if◌then◌else◌,
}

-- `v1alpha1.NetworkAttachementAnnotation` and `v1alpha1.Network`; `none` is a nil pointer.
pub record NetworkAttachementAnnotation : Type 0 where
  pub key : Text
  pub status_key : Text
  pub value : Text

pub record Network : Type 0 where
  pub name : Text
  pub annotation : Option NetworkAttachementAnnotation

-- The fields of `netdefv1.NetworkSelectionElement` and `netdefv1.NetworkStatus` that are read.
pub record Selected : Type 0 where
  pub name : Text
  pub namespace : Text

pub record NetworkStatus : Type 0 where
  pub name : Text
  pub ips : List Text

-- The keys `NetworkAttachmentAnnot` and `NetworkStatusAnnot`, and the JSON decoder.
pub record Netdef : Type 0 where
  pub network_attachment_annot : Text
  pub network_status_annot : Text
  pub unmarshal_selected : Text → Option (List Selected)
  pub unmarshal_status : Text → Option (List NetworkStatus)

abbrev pub pod_selected_networks : Text
pod_selected_networks = codes "l-3-4-gateway-api-poc/networks"

-- An empty text is not decoded.
abbrev pub decode_unless_empty : {A : Type 0} → (Text → Option (List A)) → Text → Option (List A)
decode_unless_empty unmarshal [] = some []
decode_unless_empty unmarshal (c ∷ t) = unmarshal (c ∷ t)

abbrev pub name_in : Text → Selected → Text
name_in namespace e = elim e.namespace [
  | [] ↦ namespace ++ codes "/" ++ e.name
  | c ∷ t ↦ (c ∷ t) ++ codes "/" ++ e.name
]

-- `networkSelectionElementsMap`, by its keys
unfoldable pub selected_names : Text → List Selected → List Text
selected_names namespace [] = []
selected_names namespace (e ∷ es) = name_in namespace e ∷ selected_names namespace es

unfoldable pub ips_of_status : List Text → List NetworkStatus → List Text
unfolding has
ips_of_status names [] = []
ips_of_status names (status ∷ statuses) =
    let rest = ips_of_status names statuses in
    if has text_discrete status.name names then status.ips ++ rest else rest

module _ (n : Netdef) where
  open n use {network_attachment_annot, network_status_annot, unmarshal_selected, unmarshal_status}

  -- `GetNetworksFromGateway`, on the annotations of `gateway.Spec.Infrastructure`, which is
  -- dereferenced: `none` is a nil pointer, and a panic.
  unfoldable pub get_networks_from_gateway : Option (List (Text × Text)) → Option (List Network)
  unfolding lookup
  get_networks_from_gateway infrastructure = elim infrastructure [
    | none ↦ none
    | some annotations ↦ elim (lookup text_discrete pod_selected_networks annotations) [
      | none ↦ some []
      | some value ↦ some (
          record {
            name = network_attachment_annot;
            annotation = some (record {
              key = network_attachment_annot;
              status_key = network_status_annot;
              value = value;
            });
          }
          ∷ [])
    ]
  ]

  -- `none` is an error.
  unfoldable pub get_ips_from_network_attachment_annotation :
      Text → Text → Text → Option (List Text)
  unfolding selected_names ips_of_status
  get_ips_from_network_attachment_annotation namespace networks status =
      elim (decode_unless_empty unmarshal_selected networks) [
        | none ↦ none
        | some elements ↦ elim (decode_unless_empty unmarshal_status status) [
          | none ↦ none
          | some statuses ↦ some (ips_of_status (selected_names namespace elements) statuses)
        ]
      ]

  -- `GetIPs` on the namespace and the annotations of a pod; it has no error.
  unfoldable pub get_ips : Text → List (Text × Text) → List Network → List Text
  unfolding get_ips_from_network_attachment_annotation lookup
  get_ips namespace annotations [] = []
  get_ips namespace annotations (network ∷ networks) =
      let rest = get_ips namespace annotations networks in
      elim network.annotation [
        | none ↦ rest
        | some a ↦ elim (lookup text_discrete a.status_key annotations) [
          | none ↦ rest
          | some status ↦
              elim (get_ips_from_network_attachment_annotation namespace a.value status) [
                | none ↦ rest
                | some new_ips ↦ new_ips ++ rest
              ]
        ]
      ]
