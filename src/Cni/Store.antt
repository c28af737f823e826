-- ===== src/Cni/Store.antt =====
-- pkg/cni/store.go
use l_3_4_gateway_api_poc.Base.{Option, none, some, ◌++◌, Text, codes, digits, if◌then◌else◌}
use l_3_4_gateway_api_poc.Cni.{CmdArgs, Host}

abbrev pub default_data_dir : Text
default_data_dir = codes "/var/lib/cni/store"

pub data StoreError : Type 0 where
  no_filename no_directory not_created not_written not_closed not_read not_removed : StoreError

module _ (h : Host) where
  open h use {
    World, stat_netns, unmarshal_name, join_path, mkdir_all, create_file, write_file, close_file,
    read_file, remove_file,
  }

  unfoldable pub get_network_namespace_id : Text → World → Option Text
  unfolding digits
  get_network_namespace_id netns w = elim (stat_netns netns w) [
    | none ↦ none
    | some (dev, ino) ↦ some (digits dev ++ codes "-" ++ digits ino)
  ]

  unfoldable pub get_filename : CmdArgs → World → Option Text
  unfolding get_network_namespace_id
  get_filename args w = elim (unmarshal_name args.stdin_data) [
    | none ↦ none
    | some name ↦ elim (get_network_namespace_id args.netns w) [
      | none ↦ none
      | some netns_id ↦
          some (netns_id ++ codes "-" ++ name ++ codes "-" ++ args.if_name ++ codes ".json")
    ]
  ]

  unfoldable pub store : CmdArgs → World → Option StoreError × World
  unfolding get_filename
  store args w = elim (get_filename args w) [
    | none ↦ (some no_filename, w)
    | some filename ↦
        let file_path = join_path default_data_dir filename in
        let (made, w1) = mkdir_all default_data_dir w in
        let (created, w2) = create_file file_path w1 in
        let (written, w3) = write_file file_path args.stdin_data w2 in
        let (closed, w4) = close_file file_path w3 in
        if made
        then (if created
            then (if written
                then (if closed then (none, w4) else (some not_closed, w4))
                else (some not_written, w3))
            else (some not_created, w2))
        else (some no_directory, w1)
  ]

  -- The data of the request, or `none` for an error
  unfoldable pub get : CmdArgs → World → Option Text
  unfolding get_filename
  get args w = elim (get_filename args w) [
    | none ↦ none
    | some filename ↦ read_file (join_path default_data_dir filename) w
  ]

  unfoldable pub delete_stored : CmdArgs → World → Option StoreError × World
  unfolding get_filename
  delete_stored args w = elim (get_filename args w) [
    | none ↦ (some no_filename, w)
    | some filename ↦
        let (removed, w1) = remove_file (join_path default_data_dir filename) w in
        (if removed then none else some not_removed, w1)
  ]
