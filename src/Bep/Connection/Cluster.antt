-- ===== src/Bep/Connection/Cluster.antt =====
-- bepository-bep/src/connection.rs: the folders that both sides share, and the requests of the peer.
-- The sets and maps of folders are lists: a `HashMap` has no order of its own.
use bepository.Prelude.{
  ℕ, Bytes, Bool, false, ◌||◌, Option, none, some, List, [], ◌∷◌, ◌++◌, Result, ok, err,
  if◌then◌else◌, bytes_eq, ok_or, ◌>>=◌, is_none,
}
use bepository.Prelude.Int.{ℤ, pos, ltb_ℤ}
use bepository.Bep.Errors.{StorageError, BepError}
use bepository.Bep.Proto.{FileInfo}
use bepository.Bep.Conflict.{DeviceId}
use bepository.Bep.Messages.{
  Device, Folder, ClusterConfig, Request, Response, Message, no_error, generic, no_such_file,
}
use bepository.Bep.Calls.{
  Backend, FolderId, FolderLabel, Call, done, call, send, access, or_fail, ◌>>?◌,
}
use bepository.Bep.Connection.{ConnectionInner, ConnectionContext, Conn, keep, retry}
use bepository.Bep.Connection.Index.{get_folder}

unfoldable pub contains_folder : FolderId → List FolderId → Bool
contains_folder id [] = false
contains_folder id (j ∷ l) = bytes_eq j id || contains_folder id l

-- `insert` of the map and of the set.
unfoldable pub insert_folder : FolderId × ℕ → List (FolderId × ℕ) → List (FolderId × ℕ)
insert_folder entry [] = entry ∷ []
insert_folder entry (old ∷ l) =
    let rest = insert_folder entry l in if bytes_eq old.0 entry.0 then entry ∷ l else old ∷ rest

unfoldable pub insert_folders : List (FolderId × ℕ) → List (FolderId × ℕ) → List (FolderId × ℕ)
unfolding insert_folder
insert_folders [] shared = shared
insert_folders (entry ∷ entries) shared = insert_folders entries (insert_folder entry shared)

unfoldable pub extend_set : List FolderId → List FolderId → List FolderId
unfolding contains_folder
extend_set [] ids = ids
extend_set (id ∷ more) ids =
    extend_set more (if contains_folder id ids then ids else ids ++ (id ∷ []))

-- The peer's own device in a folder it proposes.
unfoldable pub find_device : DeviceId → List Device → Option Device
find_device id [] = none
find_device id (d ∷ l) = if bytes_eq d.id id then some d else find_device id l

-- The folders of the peer with their labels, and with the index ids of the peer.
abbrev pub Proposal : Type 0
Proposal = List (FolderId × FolderLabel) × List (FolderId × ℕ)

abbrev pub propose : Folder → Proposal → Device → Proposal
propose f (refs, parsed) dev = ((f.id, f.label) ∷ refs, (f.id, dev.index_id) ∷ parsed)

unfoldable pub parse_folders : DeviceId → List Folder → Result BepError Proposal
unfolding find_device
parse_folders remote [] = ok ([], [])
parse_folders remote (f ∷ fs) = do
  dev ← ok_or (find_device remote f.devices) BepError.peer_bad_message
  rest ← parse_folders remote fs
  ok (propose f rest dev)

-- Folders that are not shared yet, and those of them that we did not advertise.
unfoldable pub new_folders : List (FolderId × ℕ) → List (FolderId × ℕ) → List (FolderId × ℕ)
unfolding get_folder
new_folders current [] = []
new_folders current ((id, n) ∷ l) =
    let rest = new_folders current l in
    if is_none (get_folder id current) then (id, n) ∷ rest else rest

unfoldable pub unadvertised : List FolderId → List (FolderId × ℕ) → List FolderId
unfolding contains_folder
unadvertised our_cc [] = []
unadvertised our_cc ((id, n) ∷ l) =
    let rest = unadvertised our_cc l in if contains_folder id our_cc then rest else id ∷ rest

abbrev pub config_folder : ConnectionContext → FolderLabel → FolderId → ℤ → Folder
config_folder ctx label id seq = record {
  id = id;
  label = label;
  devices =
      record { id = ctx.local_device; max_sequence = seq; index_id = 0 }
      ∷ record { id = ctx.remote_device; max_sequence = pos 0; index_id = 0 }
      ∷ [];
}

-- The entries of the stream, and their greatest sequence number: the first failure ends it.
unfoldable pub collect :
    ConnectionContext
    → List (Result StorageError FileInfo)
    → List FileInfo
    → ℤ
    → Result BepError (List FileInfo × ℤ)
collect ctx [] files last_seq = ok (files, last_seq)
collect ctx (ok fi ∷ stream) files last_seq =
    collect ctx stream (files ++ (fi ∷ []))
      (if ltb_ℤ last_seq fi.sequence then fi.sequence else last_seq)
collect ctx (err e ∷ stream) files last_seq = err (ctx.policy.map_error e)

abbrev pub Agreed : Type 0
Agreed = List (FolderId × ℕ) × List FolderId

-- The answer to a request for a block.
unfoldable pub answer : ℕ → Result StorageError Bytes → Response
answer id (ok found) = record { id = id; content = found; code = no_error }
answer id (err StorageError.not_found) = record { id = id; content = []; code = no_such_file }
answer id (err _) = record { id = id; content = []; code = generic }

abbrev pub is_negative : ℤ → Bool
is_negative z = ltb_ℤ z (pos 0)

module _ {B : Backend} where
  unfoldable pub config_folders : ConnectionContext → List FolderId → Conn B (List Folder)
  unfolding ◌>>?◌
  config_folders ctx [] = done (ok [])
  config_folders ctx (id ∷ ids) = retry ctx (Call.folder id) >>? λ handle.
      retry ctx (Call.local_sequence handle) >>? λ seq. config_folders ctx ids >>? λ rest.
      done (ok (config_folder ctx (B.label_of handle) id seq ∷ rest))

  unfoldable pub build_cluster_config : ConnectionContext → List FolderId → Conn B ClusterConfig
  unfolding config_folders ◌>>?◌
  build_cluster_config ctx folders = config_folders ctx folders >>? λ cc_folders.
      done (ok (record { folders = cc_folders; secondary = false }))

  abbrev pub send_collected : FolderId → List FileInfo × ℤ → Conn B (Unit {0})
  send_collected folder_id (files, last_seq) =
      send (Message.index (record { folder = folder_id; files = files; last_sequence = last_seq }))
        done

  unfoldable pub send_index : ConnectionContext → FolderId → Conn B (Unit {0})
  unfolding collect ◌>>?◌
  send_index ctx folder_id = retry ctx (Call.folder folder_id) >>? λ handle.
      retry ctx (Call.index handle (pos 0)) >>? λ stream.
      or_fail (send_collected folder_id) (collect ctx stream [] (pos 0))

  unfoldable pub send_indexes : ConnectionContext → List (FolderId × ℕ) → Conn B (Unit {0})
  unfolding send_index ◌>>?◌
  send_indexes ctx [] = done (ok tt)
  send_indexes ctx ((id, n) ∷ l) = send_index ctx id >>? λ _. send_indexes ctx l

  abbrev pub advertise : ConnectionContext → List FolderId → List FolderId → Conn B (Unit {0})
  advertise ctx our_cc [] = done (ok tt)
  advertise ctx our_cc (id ∷ ids) = build_cluster_config ctx (our_cc ++ (id ∷ ids)) >>? λ cc.
      send (Message.cluster_config cc) done

  abbrev pub agree :
      ConnectionContext → List FolderId → List (FolderId × ℕ) → List FolderId → Conn B Agreed
  agree ctx our_cc new_mutual new_for_our_cc =
      (advertise ctx our_cc new_for_our_cc >>? λ _. send_indexes ctx new_mutual) >>? λ _.
      done (ok (new_mutual, new_for_our_cc))

  abbrev pub process_proposal :
      ConnectionContext → List (FolderId × ℕ) → List FolderId → Proposal → Conn B Agreed
  process_proposal ctx current_mutual our_cc (refs, parsed) =
      let new_mutual = new_folders current_mutual parsed in
      retry ctx (Call.ensure_folders refs) >>? λ _.
      agree ctx our_cc new_mutual (unadvertised our_cc new_mutual)

  unfoldable pub process_peer_cc :
      ConnectionContext → ClusterConfig → List (FolderId × ℕ) → List FolderId → Conn B Agreed
  unfolding parse_folders new_folders unadvertised build_cluster_config send_indexes ◌>>?◌
  process_peer_cc ctx peer_cc current_mutual our_cc =
      or_fail (process_proposal ctx current_mutual our_cc)
        (parse_folders ctx.remote_device peer_cc.folders)

  abbrev pub merge_folders : Agreed → ConnectionInner B → ConnectionInner B
  merge_folders (new_mutual, new_for_our_cc) conn = record conn {
    mutual_folders = insert_folders new_mutual conn.mutual_folders;
    our_cc_folders = extend_set new_for_our_cc conn.our_cc_folders;
  }

  abbrev pub merge_agreed : Agreed → Conn B (Unit {0})
  merge_agreed agreed = access (merge_folders agreed) (λ conn. done (ok tt))

  unfoldable pub handle_cluster_config_update :
      ConnectionContext → ClusterConfig → Conn B (Unit {0})
  unfolding process_peer_cc insert_folders extend_set ◌>>?◌
  handle_cluster_config_update ctx cc =
      access keep
        (λ conn. process_peer_cc ctx cc conn.mutual_folders conn.our_cc_folders >>? merge_agreed)

  abbrev pub respond : ℕ → Result StorageError Bytes → Conn B (Unit {0})
  respond id result = send (Message.response (answer id result)) done

  abbrev pub read_and_respond : Request → B.Handle → Conn B (Unit {0})
  read_and_respond request handle =
      if is_negative request.offset || is_negative request.size
      then respond request.id (err StorageError.invalid_input)
      else call (Call.read_block handle request.name request.offset request.size request.hash)
          (respond request.id)

  unfoldable pub handle_request : ConnectionContext → Request → Conn B (Unit {0})
  unfolding answer ◌>>?◌
  handle_request ctx request =
      access keep (λ conn. retry ctx (Call.folder request.folder) >>? read_and_respond request)
