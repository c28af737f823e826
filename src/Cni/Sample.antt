-- ===== src/Cni/Sample.antt =====
-- A host with one namespace and the files of the store.
use l_3_4_gateway_api_poc.Base.{
  ◌≡◌, refl, ◌∙◌, Bool, true, false, Option, none, some, List, [], Text, text_discrete, codes, ℤ,
  lookup, insert, delete, lookup-insert, lookup-delete, if_pos,
}
use l_3_4_gateway_api_poc.Netlink.Sample.{
  State, sample_netlink, sample_kernel, sample_addresses, put-In, put-fresh, take_out-In,
  net_discrete,
}
use l_3_4_gateway_api_poc.Cni.{Host}
use l_3_4_gateway_api_poc.Cni.Laws.{Lawful, SameNamespaces}
use l_3_4_gateway_api_poc.Cni.Table.{Table}
use l_3_4_gateway_api_poc.Cni.Restored.{LinkAddresses}

pub record Machine : Type 0 where
  pub inside : State
  pub files : List (Text × Text)

-- A file is created where there is none.
unfoldable pub create : Text → Machine → Option Text → Bool × Machine
unfolding insert
create p w (some d) = (false, w)
create p w none = (true, record w { files = insert text_discrete p [] w.files })

unfoldable pub remove_at : Text → Machine → Option Text → Bool × Machine
unfolding delete
remove_at p w (some d) = (true, record w { files = delete text_discrete p w.files })
remove_at p w none = (false, w)

abbrev pub sample_host : Host
sample_host = record {
  World = Machine;
  addresses = sample_addresses;
  Netns = Unit;
  get_ns = λ t w. some tt;
  netlink = sample_netlink;
  enters = λ n w. true;
  inside = λ n w. w.inside;
  set_inside = λ n s w. record w { inside = s };
  stat_netns = λ t w. some (4, 26);
  unmarshal_name = λ t. some (codes "network");
  join_path = λ d f. f;
  mkdir_all = λ d w. (true, w);
  create_file = λ p w. create p w (lookup text_discrete p w.files);
  write_file = λ p d w. (true, record w { files = insert text_discrete p d w.files });
  close_file = λ p w. (true, w);
  read_file = λ p w. lookup text_discrete p w.files;
  remove_file = λ p w. remove_at p w (lookup text_discrete p w.files);
  print_result = λ v args w. true;
}

pub create-SameNamespaces :
    (p : Text) (w : Machine) (o : Option Text) → SameNamespaces sample_host w (create p w o).1
unfolding create
create-SameNamespaces p w none = record {
  same_get_ns = λ t. refl;
  same_stat = λ t. refl;
  same_enters = λ n. refl;
  same_inside = λ n. refl;
}
create-SameNamespaces p w (some d) = record {
  same_get_ns = λ t. refl;
  same_stat = λ t. refl;
  same_enters = λ n. refl;
  same_inside = λ n. refl;
}

pub remove_at-SameNamespaces :
    (p : Text) (w : Machine) (o : Option Text) → SameNamespaces sample_host w (remove_at p w o).1
unfolding remove_at
remove_at-SameNamespaces p w none = record {
  same_get_ns = λ t. refl;
  same_stat = λ t. refl;
  same_enters = λ n. refl;
  same_inside = λ n. refl;
}
remove_at-SameNamespaces p w (some d) = record {
  same_get_ns = λ t. refl;
  same_stat = λ t. refl;
  same_enters = λ n. refl;
  same_inside = λ n. refl;
}

abbrev pub same_machine : (w v : Machine) → v.inside ≡ w.inside → SameNamespaces sample_host w v
same_machine w v e = record {
  same_get_ns = λ t. refl;
  same_stat = λ t. refl;
  same_enters = λ n. refl;
  same_inside = λ n. e;
}

pub removed_lem :
    (p d : Text) (w : Machine)
    → lookup text_discrete p w.files ≡ some d
    → ((remove_at p w (lookup text_discrete p w.files)).0 ≡ true)
      × (lookup text_discrete p (remove_at p w (lookup text_discrete p w.files)).1.files ≡ none)
unfolding remove_at
removed_lem p d w e =
    rw (e) (refl, lookup-delete text_discrete p p w.files ∙ if_pos (text_discrete p p) refl none _)

pub exclusive_lem :
    (p d : Text) (w : Machine)
    → lookup text_discrete p w.files ≡ some d
    → (create p w (lookup text_discrete p w.files)).0 ≡ false
unfolding create
exclusive_lem p d w e = rw (e) refl

abbrev pub sample_laws : Lawful sample_host
sample_laws = record {
  contents = λ p w. lookup text_discrete p w.files;
  reads = λ p w. refl;
  exclusive = exclusive_lem;
  written = λ p d w c r.
      lookup-insert text_discrete p p d (create p w (lookup text_discrete p w.files)).1.files
      ∙ if_pos (text_discrete p p) refl _ _;
  closed = λ p w. refl;
  made = λ p d w. refl;
  removed = removed_lem;
  set-contents = λ p n s w. refl;
  mkdir-SameNamespaces = λ p w. same_machine w w refl;
  create-SameNamespaces = λ p w. create-SameNamespaces p w (lookup text_discrete p w.files);
  write-SameNamespaces = λ p d w. same_machine w _ refl;
  close-SameNamespaces = λ p w. same_machine w w refl;
  remove-SameNamespaces = λ p w. remove_at-SameNamespaces p w (lookup text_discrete p w.files);
  set-inside = λ n s w. refl;
  set-get_ns = λ t n s w. refl;
  set-stat = λ t n s w. refl;
  set-enters = λ m n s w. refl;
}

abbrev pub sample_table : (t : ℤ) → Table sample_netlink t
sample_table t = record {
  kernel = sample_kernel t;
  routes = λ w. w.routes.0;
  Accepted = λ f. ¬ (f.multi_path ≡ []);
  routes_listed = λ w. refl;
  routes-Distinct = λ w. w.routes.1;
  route_deleted = λ r w m. take_out-In text_discrete r w.routes m;
  route_added = λ f w e o n. put-In text_discrete f.src w.routes n;
  rule_del-routes = λ r w. refl;
  rule_add-routes = λ r w. refl;
  route_del-rules = λ r w. refl;
  route_add-rules = λ r w. refl;
}

abbrev pub sample_link : LinkAddresses sample_netlink
sample_link = record {
  addrs = λ i w. w.addrs.0;
  added = λ i net w e.
      let n = put-fresh net_discrete net w.addrs e in (n, (put-In net_discrete net w.addrs n).1);
  deleted = λ i net w m. take_out-In net_discrete net w.addrs m;
  same_link = λ t i net w. refl;
}
