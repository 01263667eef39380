-- ===== src/Gateway/Events/Tests.antt =====
-- An event while Redis is down and back, and an event that the batch writer takes.
use Prim.Native.String.{String}
use mathlib.Core.Path.{subst}
use janus_server.Prelude.{
  ℕ, ◌≤◌, ◌≡◌, sym, map, refl, ap, arith, ◌⊎◌, inl, inr, Bool, true, false, Option, none, some,
  List, [], ◌∷◌, length, Eq, discrete_eq, eq_discrete, string_eq, ℕ_discrete, if◌then◌else◌,
}
use janus_server.Prelude.Int.{ℤ, pos}
use janus_server.Core.Redis.{Conn}
use janus_server.Core.Redis.Queues.{Queues}
use janus_server.Gateway.Events.Defs.{
  QueueKey, usage_queue, usage_inflight, JsonValue, text, number, nil, other, Dict, Decoded, dict,
  scalar, undecodable, EventCodec,
}
use janus_server.Gateway.Events.Pipeline.{
  recover_stale_claims, claim_batch, dlq_claimed, ack_claimed,
}
use janus_server.Gateway.Events.Outbox.{Process, enqueue_event}
use janus_server.Gateway.Events.Replay.{Enqueued, enqueue_event-Enqueued}
use janus_server.Gateway.Events.Log.{
  log, Logs, enqueue_all, enqueue_all-refines, enqueue_all-bounded,
}
use janus_server.Gateway.Events.UsageBatch.{Ledger, flush_usage_records}
use janus_server.Gateway.Events.Held.{Held, itself, settled, waiting}
use janus_server.Gateway.Events.Flush.{flush_all, flush_usage_records-Held}

-- Texts: plain ones, numbers, and objects written field by field.
data Json : Type 0 where
  plain : String → Json
  digits : ℕ → Json
  empty : Json
  entry_text : String → Json → Json → Json
  entry_number : String → ℤ → Json → Json
  entry_nil : String → Json → Json
  entry_other : String → Json → Json

abbrev entry : String → JsonValue Json → Json → Json
entry name (text t) rest = entry_text name t rest
entry name (number n) rest = entry_number name n rest
entry name nil rest = entry_nil name rest
entry name other rest = entry_other name rest

abbrev write_json : Dict Json → Json
write_json [] = empty
write_json ((name, v) ∷ d) = entry name v (write_json d)

abbrev entries : Json → Dict Json
entries (plain t) = []
entries (digits n) = []
entries empty = []
entries (entry_text name t rest) = (name, text t) ∷ entries rest
entries (entry_number name n rest) = (name, number n) ∷ entries rest
entries (entry_nil name rest) = (name, nil) ∷ entries rest
entries (entry_other name rest) = (name, other) ∷ entries rest

abbrev read_json : Json → Decoded Json
read_json (plain t) = undecodable
read_json (digits n) = scalar (number (pos n))
read_json empty = dict []
read_json (entry_text name t rest) = dict (entries (entry_text name t rest))
read_json (entry_number name n rest) = dict (entries (entry_number name n rest))
read_json (entry_nil name rest) = dict (entries (entry_nil name rest))
read_json (entry_other name rest) = dict (entries (entry_other name rest))

entries-write_json : (d : Dict Json) → entries (write_json d) ≡ d
entries-write_json [] = refl
entries-write_json ((name, text t) ∷ d) = ap (λ l. (name, text t) ∷ l) (entries-write_json d)
entries-write_json ((name, number n) ∷ d) = ap (λ l. (name, number n) ∷ l) (entries-write_json d)
entries-write_json ((name, nil) ∷ d) = ap (λ l. (name, nil) ∷ l) (entries-write_json d)
entries-write_json ((name, other) ∷ d) = ap (λ l. (name, other) ∷ l) (entries-write_json d)

read_json-write_json : (d : Dict Json) → read_json (write_json d) ≡ dict d
read_json-write_json [] = refl
read_json-write_json ((name, text t) ∷ d) = ap dict (entries-write_json ((name, text t) ∷ d))
read_json-write_json ((name, number n) ∷ d) = ap dict (entries-write_json ((name, number n) ∷ d))
read_json-write_json ((name, nil) ∷ d) = ap dict (entries-write_json ((name, nil) ∷ d))
read_json-write_json ((name, other) ∷ d) = ap dict (entries-write_json ((name, other) ∷ d))

abbrev number_of : Option (JsonValue Json) → Option ℤ
number_of (some (text (digits n))) = some (pos n)
number_of (some (number n)) = some n
number_of other_value = none

abbrev pushed : JsonValue Json → Option Json
pushed (text t) = some t
pushed (number n) = some (entry_number "" n empty)
pushed nil = none
pushed other = none

abbrev int_of : Option (JsonValue Json) → Option ℤ
int_of (some (number n)) = some n
int_of (some other) = none
int_of other_value = some (pos 0)

abbrev codec : EventCodec Json
codec = record {
  dumps = write_json;
  loads = read_json;
  cjson_encode = write_json;
  cjson_decode = read_json;
  arranged = λ d. d;
  show_ms = digits;
  tonumber = number_of;
  argument = pushed;
  int_or_zero = int_of;
  loads-dumps = read_json-write_json;
  loads-cjson_encode = read_json-write_json;
  cjson_decode-cjson_encode = read_json-write_json;
  field-arranged = λ name d. refl;
  tonumber-show_ms = λ ms. refl;
  argument-text = λ t. refl;
}

abbrev String_discrete : Discrete String
String_discrete = eq_discrete string_eq

abbrev ℤ-discrete : Discrete ℤ
unfolding ℕ_discrete
ℤ-discrete = hlevel ℕ_discrete

abbrev Json-discrete : Discrete Json
unfolding ℕ_discrete
Json-discrete = hlevel (String_discrete, ℤ-discrete, ℕ_discrete)

abbrev json_eq : Eq Json
json_eq = discrete_eq Json-discrete

abbrev QueueKey-discrete : Discrete QueueKey
QueueKey-discrete = hlevel

abbrev key_eq : Eq QueueKey
key_eq = discrete_eq QueueKey-discrete

-- Redis and the row lists that the database took.
abbrev World : Type 0
World = (QueueKey → List Json) × List (List (Dict Json))

abbrev server : Queues QueueKey Json key_eq
server = record {
  Store = World;
  items = λ k s. s.0 k;
  put = λ k l s. (λ j. if key_eq.same j k then l else s.0 j, s.1);
  items-put = λ j k l s. refl;
}

abbrev Among : List (Dict Json) → List (List (Dict Json)) → Type 0
Among rows [] = ⊥
Among rows (x ∷ xs) = (rows ≡ x) ⊎ Among rows xs

abbrev insert : List (Dict Json) → World → Option (ℕ × World)
insert rows s = some (length rows, (s.0, rows ∷ s.1))

the_store :
    (m n : ℕ) (s s' : World) → ◌≡◌ {A = Option (ℕ × World)} (some (m, s)) (some (n, s')) → s ≡ s'
the_store m n s s' q = cc

taken :
    (rows : List (Dict Json)) (n : ℕ) (s s' : World)
    → insert rows s ≡ some (n, s')
    → Among rows s'.1
taken rows n s s' q = subst (λ x. Among rows x.1) (the_store _ n _ s' q) (inl refl)

taken_before :
    (earlier rows : List (Dict Json)) (n : ℕ) (s s' : World)
    → insert rows s ≡ some (n, s')
    → Among earlier s.1
    → Among earlier s'.1
taken_before earlier rows n s s' q h = subst (λ x. Among earlier x.1) (the_store _ n _ s' q) (inr h)

same_items :
    (k : QueueKey) (rows : List (Dict Json)) (n : ℕ) (s s' : World)
    → insert rows s ≡ some (n, s')
    → server.items k s' ≡ server.items k s
same_items k rows n s s' q = sym (ap (server.items k) (the_store _ n _ s' q))

abbrev truthy : Option (JsonValue Json) → Option Json
truthy (some (text t)) = some t
truthy other_value = none

abbrev ledger : Ledger Json key_eq server
ledger = record {
  insert_ignore_conflicts = insert;
  Took = λ rows s. Among rows s.1;
  truthy_text = truthy;
  truthy_text-none = refl;
  decimal = λ v. some v;
  error_status = plain "error";
  next_id = λ i. i;
  Took-insert = taken;
  Took_before = taken_before;
  items-insert = same_items;
  Took-put = λ rows k l s h. h;
}

abbrev event : String → Dict Json
event model = ("user_id", number (pos 7)) ∷ ("logical_model_id", text (plain model)) ∷ []

-- The first push fails, and its answer may only have been late.
abbrev late : Conn server.Store → Bool
late c = true

abbrev process : Process key_eq json_eq codec server late
process = record { outboxes = λ k. []; conn = record { store = (λ k. [], []); up = false ∷ [] } }

enqueue_event-Enqueued_example :
    Enqueued key_eq json_eq codec server late usage_queue
      (write_json (event "a"))
      process
      (enqueue_event key_eq json_eq codec server late usage_queue (event "a") process)
enqueue_event-Enqueued_example =
    enqueue_event-Enqueued key_eq json_eq codec server late usage_queue (event "a") process

abbrev events : List (Dict Json)
events = event "a" ∷ event "b" ∷ event "c" ∷ []

enqueue_all-refines_example :
    Logs key_eq json_eq codec server late usage_queue
      (write_json (event "a") ∷ write_json (event "b") ∷ write_json (event "c") ∷ [])
      (log key_eq json_eq codec server late usage_queue
        (enqueue_all key_eq json_eq codec server late usage_queue events process))
enqueue_all-refines_example =
    enqueue_all-refines key_eq json_eq codec server late usage_queue events process (omega arith)

-- The server had served the push that raised: the first event is there twice.
repeated :
    log key_eq json_eq codec server late usage_queue
      (enqueue_all key_eq json_eq codec server late usage_queue events process)
    ≡ write_json (event "a")
      ∷ write_json (event "a")
      ∷ write_json (event "b")
      ∷ write_json (event "c")
      ∷ []
unfolding enqueue_event
repeated = refl

enqueue_all-bounded_example :
    length (
      (enqueue_all key_eq json_eq codec server late usage_queue events process).outboxes
        usage_queue)
    ≤ 10000
enqueue_all-bounded_example =
    enqueue_all-bounded key_eq json_eq codec server late usage_queue events process (omega arith)

-- After the outage all three events are in Redis, in their order.
caught_up :
    (enqueue_all key_eq json_eq codec server late usage_queue events process).outboxes usage_queue
    ≡ []
unfolding enqueue_event
caught_up = refl

-- The events wait; the acknowledgement of the first call fails.
abbrev waiting_events : Conn World
waiting_events = record {
  store = (λ k. if key_eq.same k usage_queue then map write_json events else [], []);
  up = true ∷ true ∷ true ∷ true ∷ true ∷ false ∷ [];
}

abbrev calls : List (ℕ × (ℕ → ℕ))
calls = (1000, λ i. 1000) ∷ (500000, λ i. 500000) ∷ []

flush_usage_records-Held_example :
    Held key_eq json_eq codec server ledger
      (write_json (event "b"))
      (flush_all key_eq json_eq codec server ledger calls waiting_events).store
unfolding Json-discrete
flush_usage_records-Held_example =
    flush_usage_records-Held key_eq json_eq codec server ledger (write_json (event "b")) calls
      waiting_events (write_json (event "b"), itself, settled (waiting refl))

-- The second call finds the claims stale and takes them again; now they are acknowledged.
taken_twice : length (flush_all key_eq json_eq codec server ledger calls waiting_events).store.1 ≡ 2
unfolding flush_usage_records recover_stale_claims claim_batch dlq_claimed ack_claimed Json-discrete
taken_twice = refl

all_acknowledged :
    (flush_all key_eq json_eq codec server ledger calls waiting_events).store.0 usage_inflight ≡ []
unfolding flush_usage_records recover_stale_claims claim_batch dlq_claimed ack_claimed Json-discrete
all_acknowledged = refl
