-- ===== src/Streams/Info.antt =====
-- streamInfo, streamGroupsInfo and streamGroupConsumersInfo, and the functions that read them:
-- getStreamEntryId, scanStreamGroupConsumers, scanStreamGroups and getStreamInfo. The parameters
-- `scans` are redis.ScanStruct into each of the structs, with `none` for its error.
use redis_exporter.Base.{
  Bool, false, Option, none, some, List, [], ◌∷◌, ◌++◌, Bytes, codes, bytes_eq, ℤ, length, ltb,
  if◌then◌else◌,
}
use redis_exporter.Deps.{Deps}
use redis_exporter.Run.{◌>>=◌, pure, panic, case_option}
use redis_exporter.Redis.{Redis, talk}
use redis_exporter.Redis.Views.{Views}
use redis_exporter.Options.{Exporter}
use redis_exporter.Keys.Single.{Step, if_some}

pub record StreamGroupConsumersInfo : Type 0 where
  pub name : Bytes
  pub pending : ℤ
  pub idle : ℤ

pub record StreamGroupsInfo : Type 0 where
  pub name : Bytes
  pub consumers : ℤ
  pub pending : ℤ
  pub last_delivered_id : Bytes
  pub entries_read : ℤ
  pub lag : ℤ
  pub stream_group_consumers_info : List StreamGroupConsumersInfo

pub record StreamInfo : Type 0 where
  pub length : ℤ
  pub radix_tree_keys : ℤ
  pub radix_tree_nodes : ℤ
  pub last_generated_id : Bytes
  pub groups : ℤ
  pub max_deleted_entry_id : Bytes
  pub first_entry_id : Bytes
  pub last_entry_id : Bytes
  pub stream_groups_info : List StreamGroupsInfo

pub record StreamScans (Reply : Type 0) : Type 0 where
  pub scan_stream : List Reply → Option StreamInfo
  pub scan_group : List Reply → Option StreamGroupsInfo
  pub scan_consumer : List Reply → Option StreamGroupConsumersInfo

module _ (r : Redis) (v : Views r) where
  open r use {Reply}
  open v use {as_bytes, as_slice, is_nil}

  abbrev first_bytes : List Reply → Bytes
  first_bytes [] = []
  first_bytes (id ∷ fields) = elim (as_bytes id) [ none ↦ [] | some text ↦ text ]

  -- The id of the entry at the front of `redisValue[index:]`; an index out of range where it is
  -- empty.
  unfoldable pub get_stream_entry_id : List Reply → Option Bytes
  get_stream_entry_id [] = none
  get_stream_entry_id (entry ∷ values) = elim (as_slice entry) [
    | none ↦ some []
    | some fields ↦
        if ltb (length fields) 2
        then some []
        else if is_nil entry
        then some []
        else some (first_bytes fields)
  ]

  abbrev pub is_text : Bytes → Reply → Bool
  is_text name value = elim (as_bytes value) [ none ↦ false | some text ↦ bytes_eq text name ]

  -- `stream.FirstEntryId` and `stream.LastEntryId` behind the value at the front of the list.
  unfoldable pub read_entry_id : Bytes → Reply → List Reply → Bytes → Option Bytes
  unfolding get_stream_entry_id
  read_entry_id name value values old =
      if is_text name value then get_stream_entry_id values else some old

  unfoldable pub entry_ids : List Reply → StreamInfo → Option StreamInfo
  unfolding read_entry_id
  entry_ids [] stream = some stream
  entry_ids (value ∷ values) stream =
      if_some (read_entry_id (codes "first-entry") value values stream.first_entry_id) (λ first.
        if_some (read_entry_id (codes "last-entry") value values stream.last_entry_id) (λ last.
          entry_ids values (record stream { first_entry_id = first; last_entry_id = last })))

module _ (deps : Deps) (r : Redis) (v : Views r) (scans : StreamScans r.Reply) (e : Exporter) where
  open r use {Reply, Conn, values}
  open scans use {scan_stream, scan_group, scan_consumer}

  abbrev xinfo : List Bytes → Conn → Option (List Reply) × Conn
  xinfo args c = let x = r.do_cmd (codes "XINFO" ∷ args) c in (if_some x.0 values, x.1)

  -- The elements that are lists and that can be scanned.
  unfoldable pub scan_consumers : List Reply → List StreamGroupConsumersInfo
  scan_consumers [] = []
  scan_consumers (reply ∷ replies) = elim (if_some (values reply) scan_consumer) [
    | none ↦ scan_consumers replies
    | some consumer ↦ consumer ∷ scan_consumers replies
  ]

  unfoldable pub scan_stream_group_consumers :
      Bytes → Bytes → Step deps r e (Option (List StreamGroupConsumersInfo))
  unfolding scan_consumers
  scan_stream_group_consumers stream group = do
    reply ← talk (xinfo (codes "CONSUMERS" ∷ stream ∷ group ∷ []))
    case_option reply (pure none) (λ consumers. pure (some (scan_consumers consumers)))

  -- The loop over the groups, with the result so far; an error of XINFO CONSUMERS ends it.
  unfoldable pub scan_groups :
      Bytes → List Reply → List StreamGroupsInfo → Step deps r e (Option (List StreamGroupsInfo))
  unfolding scan_stream_group_consumers
  scan_groups stream [] result = pure (some result)
  scan_groups stream (reply ∷ replies) result =
      case_option (if_some (values reply) scan_group) (scan_groups stream replies result) (λ group.
        do
          consumers ← scan_stream_group_consumers stream group.name
          case_option consumers (pure none) (λ infos.
              scan_groups stream replies
                (result ++ record group { stream_group_consumers_info = infos } ∷ [])))

  unfoldable pub scan_stream_groups : Bytes → Step deps r e (Option (List StreamGroupsInfo))
  unfolding scan_groups
  scan_stream_groups stream = do
    reply ← talk (xinfo (codes "GROUPS" ∷ stream ∷ []))
    case_option reply (pure none) (λ groups. scan_groups stream groups [])

  -- The struct, with the ids and the groups.
  unfoldable pub complete_stream :
      Bytes → List Reply → StreamInfo → Step deps r e (Option StreamInfo)
  unfolding entry_ids scan_stream_groups
  complete_stream key fields scanned = case_option (entry_ids r v fields scanned) panic (λ stream.
      do
        groups ← scan_stream_groups key
        case_option groups (pure none)
            (λ infos. pure (some (record stream { stream_groups_info = infos }))))

  abbrev xinfo_stream : Bytes → List Bytes
  xinfo_stream key = codes "STREAM" ∷ key ∷ []

  abbrev pub stream_reply : Bytes → Conn → Option (List Reply)
  stream_reply key c = (xinfo (xinfo_stream key) c).0

  unfoldable pub get_stream_info : Bytes → Step deps r e (Option StreamInfo)
  unfolding complete_stream
  get_stream_info key = do
    reply ← talk (λ c. (stream_reply key c, (xinfo (xinfo_stream key) c).1))
    case_option reply (pure none)
        (λ fields. case_option (scan_stream fields) (pure none) (complete_stream key fields))
