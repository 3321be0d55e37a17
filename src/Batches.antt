-- ===== src/Batches.antt =====
-- internal/services/batches/service.go: batches of inbox entries. The repository, the event processor, the
-- leases and the clock are outside: what they answer is a function of the calls made before, newest first.
pub mod Identity
pub mod Grouping
pub mod Processing
pub mod Requests
pub mod Protocol
pub mod Guarantees
pub mod Formed
pub mod Manual
pub mod Selection
mod Tests
use kafka_simulate_rule.Prelude.{
  ◌==◌, false, [], ◌++◌, ◌&&◌, ltb, ◌∷◌, ◌∷◌, not, true, Option, str_eq, if◌then◌else◌, ◌<>◌, List,
  ℕ, ℤ, Bool, String,
}
use kafka_simulate_rule.Domain.Outbox.{InboxEntry}
use kafka_simulate_rule.Domain.Values.{Runtime}
use kafka_simulate_rule.Domain.Event.{is_empty, EventEnvelope, Time}
use kafka_simulate_rule.Domain.Result.{Result}
use kafka_simulate_rule.Domain.Identity.{bar}
use kafka_simulate_rule.Domain.Execution.{Execution}
use kafka_simulate_rule.Domain.Errors.{GoError}
use Prim.Native.Char.{code}

pub data BatchMode : Type 0 where
  mode_none accumulate window : BatchMode
  other_mode : String → BatchMode

-- A duration is in nanoseconds.
pub record BatchConfig : Type 0 where
  pub mode : BatchMode
  pub max_batch : ℤ
  pub window : ℤ

pub record BatchRun : Type 0 where
  pub batch_id : String
  pub tenant_id : String
  pub partition_key : String
  pub rule_set : String
  pub status : String
  pub member_count : ℕ
  pub execution_id : String
  pub decision_hash : String
  pub window_from : Option Time
  pub window_to : Option Time
  pub created_at : Time

pub record BatchMember : Type 0 where
  pub id : String
  pub member_type : String
  pub payload : String

pub record BatchData : Type 0 where
  pub batch_id : String
  pub tenant_id : String
  pub partition_key : String
  pub rule_set : String
  pub window_from : Time
  pub window_to : Time
  pub events : List BatchMember

pub data Call : Type 0 where
  list_call : ℕ → Call
  list_by_ids_call : String → String → String → List String → Call
  get_run_call : String → Call
  process_call : EventEnvelope → ℤ → ℕ → String → Call
  complete_call : BatchRun → List String → Call

abbrev pub History : Type 0
History = List Call

pub record LeaseView : Type 0 where
  pub is_owner : History → ℕ → Bool
  pub get_fencing_token : History → ℕ → Option ℤ

-- `none` is a nil pointer, a nil error or a missing dependency. `marshal` is that of encoding/json.
pub record Service : Type 0 where
  pub config : BatchConfig
  pub has_events : Bool
  pub leases : Option LeaseView
  pub worker_id : String
  pub num_shards : ℕ
  pub now : History → Time
  pub list_unbatched : History → ℕ → Result (List InboxEntry)
  pub list_unbatched_by_ids :
      History → String → String → String → List String → Result (List InboxEntry)
  pub get_run : History → String → Result (Option BatchRun)
  pub process : History → EventEnvelope → ℤ → ℕ → String → Result (Option Execution)
  pub complete_batch : History → BatchRun → List String → Option GoError
  pub marshal : BatchData → Result String

-- `NewServiceWithLeaseProvider`
abbrev pub num_shards_of : ℕ → ℕ
num_shards_of n = if ltb 0 n then n else 4096

abbrev pub batch_rule_set : String → String
batch_rule_set rule_set = rule_set <> ".batch"

-- `a <= b` for strings, by code points as by the bytes of UTF-8.
unfoldable pub text_le : String → String → Bool
text_le String.[] t = true
text_le (String.◌∷◌ c s) String.[] = false
text_le (String.◌∷◌ c s) (String.◌∷◌ d t) =
    let rest = text_le s t in
    if ltb (code c) (code d) then true else if code c == code d then rest else false

-- `sort.Strings`
unfoldable pub insert_text : String → List String → List String
unfolding text_le
insert_text s [] = s ∷ []
insert_text s (x ∷ xs) = let rest = insert_text s xs in if text_le s x then s ∷ x ∷ xs else x ∷ rest

unfoldable pub sort_texts : List String → List String
unfolding insert_text
sort_texts [] = []
sort_texts (x ∷ xs) = insert_text x (sort_texts xs)

abbrev pub join_rest : List String → String
join_rest [] = ""
join_rest (x ∷ xs) = "," <> (x <> join_rest xs)

abbrev pub join : List String → String
join [] = ""
join (x ∷ xs) = x <> join_rest xs

unfoldable pub compute_batch_id : Runtime → String → String → String → List String → String
unfolding sort_texts
compute_batch_id go tenant_id partition_key rule_set event_ids = go.sha256_hex (
    tenant_id
    <> (bar <> (partition_key <> (bar <> (rule_set <> (bar <> join (sort_texts event_ids)))))))

-- `sort.SliceStable` by the first sight.
unfoldable pub insert_entry : InboxEntry → List InboxEntry → List InboxEntry
insert_entry e [] = e ∷ []
insert_entry e (x ∷ xs) =
    let rest = insert_entry e xs in
    if ltb x.first_seen_at e.first_seen_at then x ∷ rest else e ∷ x ∷ xs

unfoldable pub sort_entries : List InboxEntry → List InboxEntry
unfolding insert_entry
sort_entries [] = []
sort_entries (e ∷ es) = insert_entry e (sort_entries es)

pub record BatchGroupKey : Type 0 where
  pub tenant_id : String
  pub partition_key : String
  pub rule_set : String

abbrev pub same_group : BatchGroupKey → BatchGroupKey → Bool
same_group a b =
    str_eq a.tenant_id b.tenant_id
    && (str_eq a.partition_key b.partition_key && str_eq a.rule_set b.rule_set)

abbrev pub group_of : InboxEntry → BatchGroupKey
group_of e = record {
  tenant_id = e.tenant_id;
  partition_key = e.partition_key;
  rule_set = e.rule_set;
}

abbrev pub is_grouped : InboxEntry → Bool
is_grouped e =
    not (is_empty e.tenant_id) && (not (is_empty e.partition_key) && not (is_empty e.rule_set))

-- The map of the groups, in the order in which the keys were met.
abbrev pub Groups : Type 0
Groups = List (BatchGroupKey × List InboxEntry)

unfoldable pub add_entry : InboxEntry → Groups → Groups
add_entry e [] = (group_of e, e ∷ []) ∷ []
add_entry e ((key, members) ∷ groups) =
    let rest = add_entry e groups in
    if same_group key (group_of e) then (key, members ++ e ∷ []) ∷ groups else (key, members) ∷ rest

unfoldable pub group_from : Groups → List InboxEntry → Groups
unfolding add_entry
group_from groups [] = groups
group_from groups (e ∷ es) = group_from (if is_grouped e then add_entry e groups else groups) es

unfoldable pub group_inbox_entries : List InboxEntry → Groups
unfolding group_from
group_inbox_entries entries = group_from [] entries
