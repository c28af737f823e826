-- ===== src/Cni/Stored.antt =====
-- What the store holds after each of its operations, on a lawful host.
use l_3_4_gateway_api_poc.Base.{
  ◌≡◌, refl, ◌∙◌, inl, inr, true, Bool-cases, Option-cases, Option, none, some, Text,
}
use l_3_4_gateway_api_poc.Cni.{CmdArgs, Host}
use l_3_4_gateway_api_poc.Cni.Laws.{Lawful, SameNamespaces, SameNamespaces_trans}
use l_3_4_gateway_api_poc.Cni.Store.{
  default_data_dir, get_network_namespace_id, get_filename, store, get, delete_stored, StoreError,
  no_filename, no_directory, not_created, not_written, not_closed,
}

module _ (h : Host) (l : Lawful h) (args : CmdArgs) where
  open h use {World, join_path, stat_netns, mkdir_all, create_file, write_file, close_file}
  open l use {contents, reads, exclusive, written, closed, made, removed}

  pub get_filename-stat :
      (w v : World)
      → stat_netns args.netns v ≡ stat_netns args.netns w
      → get_filename h args v ≡ get_filename h args w
  unfolding get_filename get_network_namespace_id
  get_filename-stat w v e = elim (Option-cases (h.unmarshal_name args.stdin_data)) [
    | inl n ↦ rw (get_filename, n) refl
    | inr (name, n) ↦ rw (get_filename, n, get_network_namespace_id, e) refl
  ]

  abbrev pub path_of : Text → Text
  path_of filename = join_path default_data_dir filename

  -- The states behind the calls of `store`
  abbrev made_world : World → World
  made_world w = (mkdir_all default_data_dir w).1

  abbrev created_world : Text → World → World
  created_world f w = (create_file (path_of f) (made_world w)).1

  abbrev written_world : Text → World → World
  written_world f w = (write_file (path_of f) args.stdin_data (created_world f w)).1

  abbrev closed_world : Text → World → World
  closed_world f w = (close_file (path_of f) (written_world f w)).1

  store_steps :
      (w : World)
      → (store h args w).0 ≡ none
      → (f : Text) × (get_filename h args w ≡ some f)
        × ((create_file (path_of f) (made_world w)).0 ≡ true)
        × ((write_file (path_of f) args.stdin_data (created_world f w)).0 ≡ true)
        × ((store h args w).1 ≡ closed_world f w)
  unfolding store
  store_steps w e = elim (Option-cases (get_filename h args w)) [
    | inl n ↦
        let e1 : Path (Option StoreError) (some no_filename) none = rw (n, store) at e in
        absurd (cc)
    | inr (f, n) ↦ elim (Bool-cases (mkdir_all default_data_dir w).0) [
      | inr m ↦
          let e1 : Path (Option StoreError) (some no_directory) none = rw (n, store, m) at e in
          absurd (cc)
      | inl m ↦ elim (Bool-cases (create_file (path_of f) (made_world w)).0) [
        | inr c ↦
            let e1 : Path (Option StoreError) (some not_created) none = rw (n, store, m, c) at e in
            absurd (cc)
        | inl c ↦ elim (Bool-cases (write_file (path_of f) args.stdin_data (created_world f w)).0) [
          | inr r ↦
              let e1 : Path (Option StoreError) (some not_written) none =
                rw (n, store, m, c, r) at e in
              absurd (cc)
          | inl r ↦ elim (Bool-cases (close_file (path_of f) (written_world f w)).0) [
            | inr d ↦
                let e1 : Path (Option StoreError) (some not_closed) none =
                  rw (n, store, m, c, r, d) at e in
                absurd (cc)
            | inl d ↦ (f, n, c, r, rw (n, store, m, c, r, d) refl)
          ]
        ]
      ]
    ]
  ]

  closed-SameNamespaces : (f : Text) (w : World) → SameNamespaces h w (closed_world f w)
  closed-SameNamespaces f w =
      SameNamespaces_trans h w (written_world f w) (closed_world f w)
        (SameNamespaces_trans h w (created_world f w) (written_world f w)
          (SameNamespaces_trans h w (made_world w) (created_world f w)
            (l.mkdir-SameNamespaces default_data_dir w)
            (l.create-SameNamespaces (path_of f) (made_world w)))
          (l.write-SameNamespaces (path_of f) args.stdin_data (created_world f w)))
        (l.close-SameNamespaces (path_of f) (written_world f w))

  -- The file of the request holds the data in a state.
  abbrev pub Holds : World → Type 0
  Holds w =
      (f : Text) × (get_filename h args w ≡ some f)
      × (contents (path_of f) w ≡ some args.stdin_data)

  -- The request has no file in a state.
  abbrev pub Empty : World → Type 0
  Empty w = (f : Text) × (get_filename h args w ≡ some f) × (contents (path_of f) w ≡ none)

  pub store-Holds :
      (w : World)
      → (store h args w).0 ≡ none
      → Holds (store h args w).1 × SameNamespaces h w (store h args w).1
  store-Holds w e =
      let (f, n, c, r, last) = store_steps w e in
      let same = closed-SameNamespaces f w in
      rw (last) (
        (
          f,
          get_filename-stat w (closed_world f w) (same.same_stat args.netns) ∙ n,
          closed (path_of f) (written_world f w)
              ∙ written (path_of f) args.stdin_data (made_world w) c r,
        ),
        same,
      )

  pub store_again : (w : World) → Holds w → ¬ ((store h args w).0 ≡ none)
  store_again w (f, n, d) e =
      let (g, m, c, r, last) = store_steps w e in
      let same : f ≡ g = cc in
      let blocked =
        exclusive (path_of f) args.stdin_data (made_world w)
          (made (path_of f) default_data_dir w ∙ d) in
      let c1 : (create_file (path_of f) (made_world w)).0 ≡ true = rw (same) c in absurd (cc)

  pub get-Holds : (w : World) → Holds w → get h args w ≡ some args.stdin_data
  unfolding get
  get-Holds w (f, n, d) = rw (get, n, reads (path_of f) w, d) refl

  pub delete_stored-Empty :
      (w : World)
      → Holds w
      → ((delete_stored h args w).0 ≡ none)
        × Empty (delete_stored h args w).1
        × SameNamespaces h w (delete_stored h args w).1
  unfolding delete_stored
  delete_stored-Empty w (f, n, d) =
      let (ok, gone) = removed (path_of f) args.stdin_data w d in
      let same = l.remove-SameNamespaces (path_of f) w in
      rw (delete_stored, n, ok)
        (refl, (f, get_filename-stat w _ (same.same_stat args.netns) ∙ n, gone), same)
