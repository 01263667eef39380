-- ===== src/Gateway/Events/Rows.antt =====
-- src/gateway/usage_batch.py: which row of a batch accounts for a record.
use mathlib.Core.Path.{subst}
use janus_server.Prelude.{
  ℕ, suc, ◌≡◌, refl, sym, ap, ◌∙◌, ◌⊎◌, inl, inr, Bool, ◌||◌, true, false, Option, none, some, List,
  [], ◌∷◌, All, Eq, if◌then◌else◌,
}
use janus_server.Prelude.Int.{pos}
use janus_server.Core.Redis.Records.{is_in}
use janus_server.Core.Redis.Queues.{Queues}
use janus_server.Gateway.Events.Defs.{QueueKey, JsonValue, number, nil, Dict, field}
use janus_server.Gateway.Events.UsageBatch.{
  Ledger, or_default, usage_row, row_with, to_usage_row, add_row, rows_step, rows_of,
}

All-map :
    {A : Type 0} (P Q : A → Type 0) (xs : List A) → ((x : A) → P x → Q x) → All P xs → All Q xs
All-map P Q [] f h = tt
All-map P Q (x ∷ xs) f (p, h) = (f x p, All-map P Q xs f h)

module _ {T : Type 0} (e : Eq QueueKey) (redis : Queues QueueKey T e)
    (ledger : Ledger T e redis) where
  open ledger use {truthy_text, decimal, truthy_text-none}

  -- The row bills what the record says: for whom, for which model, how many tokens, at what cost.
  pub record Bills (d row : Dict T) : Type 0 where
    pub user : field "user_id" row ≡ field "user_id" d
    pub model : field "logical_model_id" row ≡ field "logical_model_id" d
    pub prompt :
        field "prompt_tokens" row ≡ some (or_default (number (pos 0)) (field "prompt_tokens" d))
    pub completion :
        field "completion_tokens" row
        ≡ some (or_default (number (pos 0)) (field "completion_tokens" d))
    pub tokens :
        field "total_tokens" row ≡ some (or_default (number (pos 0)) (field "total_tokens" d))
    pub cost :
        (v w : JsonValue T)
        → field "cost" d ≡ some v
        → decimal v ≡ some w
        → field "cost" row ≡ some w
    pub request : field "request_id" row ≡ some (or_default nil (field "request_id" d))

  -- Both have one request_id, which is not empty.
  abbrev pub SameRequest : Dict T → Dict T → Type 0
  SameRequest d row =
      (r : T) × (truthy_text (field "request_id" d) ≡ some r)
      × (truthy_text (field "request_id" row) ≡ some r)

  abbrev pub HasRow : Dict T → List (Dict T) → Type 0
  HasRow row [] = ⊥
  HasRow row (x ∷ rows) = (row ≡ x) ⊎ HasRow row rows

  -- Some row bills the record, or is one of the same request.
  pub record Covered (d : Dict T) (rows : List (Dict T)) : Type 0 where
    pub row : Dict T
    pub among : HasRow row rows
    pub accounts : Bills d row ⊎ SameRequest d row

  usage_row-Bills :
      (i : ℕ) (d : Dict T) (u m : JsonValue T)
      → field "user_id" d ≡ some u
      → field "logical_model_id" d ≡ some m
      → Bills d (usage_row e redis ledger i d u m)
  unfolding field
  usage_row-Bills i d u m qu qm = record {
    user = sym qu;
    model = sym qm;
    prompt = refl;
    completion = refl;
    tokens = refl;
    cost = λ v w q q'. rw (q, q') refl;
    request = refl;
  }

  row_eq : (row row' : Dict T) → some row ≡ some row' → row ≡ row'
  row_eq row row' q = cc

  to_usage_row-Bills :
      (i : ℕ) (d row : Dict T) → to_usage_row e redis ledger i d ≡ some row → Bills d row
  unfolding to_usage_row
  to_usage_row-Bills i d row h = go (field "user_id" d) (field "logical_model_id" d) refl refl h
    where
      go :
          (u m : Option (JsonValue T))
          → field "user_id" d ≡ u
          → field "logical_model_id" d ≡ m
          → row_with e redis ledger i d u m ≡ some row
          → Bills d row
      go none m qu qm h = absurd cc
      go (some u) none qu qm h = absurd cc
      go (some u) (some m) qu qm h =
          subst (Bills d) (row_eq _ row h) (usage_row-Bills i d u m qu qm)

  Bills-SameRequest :
      (d x row : Dict T) (r : T)
      → truthy_text (field "request_id" d) ≡ some r
      → truthy_text (field "request_id" x) ≡ some r
      → Bills x row
      → SameRequest d row
  Bills-SameRequest d x row r qd qx b =
      (r, qd, ap truthy_text b.request ∙ go (field "request_id" x) qx)
    where
      go :
          (v : Option (JsonValue T))
          → truthy_text v ≡ some r
          → truthy_text (some (or_default nil v)) ≡ some r
      go none q = absurd (cc (truthy_text-none, q))
      go (some v) q = q

  Covered-later : (d x : Dict T) (rows : List (Dict T)) → Covered d rows → Covered d (x ∷ rows)
  Covered-later d x rows c = record { row = c.row; among = inr c.among; accounts = c.accounts }

  module _ (f : Eq T) where
    -- The record is covered, or its request was met before.
    abbrev Met : List T → List (Dict T) → Dict T → Type 0
    Met seen rows d =
        Covered d rows
        ⊎ ((r : T) × (truthy_text (field "request_id" d) ≡ some r) × (is_in f r seen ≡ true))

    -- A row is added in front.
    record Added (i : ℕ) (x : Dict T) (rest : Option (List (Dict T))) (rows : List (Dict T))
        : Type 0 where
      row : Dict T
      rows' : List (Dict T)
      first : Bills x row
      made : rest ≡ some rows'
      both : rows ≡ row ∷ rows'

    add_row-Added :
        (i : ℕ) (x : Dict T) (rest : Option (List (Dict T))) (rows : List (Dict T))
        → add_row e redis ledger (to_usage_row e redis ledger i x) rest ≡ some rows
        → Added i x rest rows
    add_row-Added i x rest rows h = go (to_usage_row e redis ledger i x) rest refl refl h
      where
        go :
            (o : Option (Dict T)) (p : Option (List (Dict T)))
            → to_usage_row e redis ledger i x ≡ o
            → rest ≡ p
            → add_row e redis ledger o p ≡ some rows
            → Added i x rest rows
        go none p q q' h = absurd cc
        go (some row) none q q' h = absurd cc
        go (some row) (some rows') q q' h = record {
          row = row;
          rows' = rows';
          first = to_usage_row-Bills i x row q;
          made = q';
          both = cc;
        }

    rows_of-Met :
        (records : List (Dict T)) (seen : List T) (i : ℕ) (rows : List (Dict T))
        → rows_of e redis ledger f records seen i ≡ some rows
        → All (Met seen rows) records
    unfolding rows_of
    rows_of-Met [] seen i rows h = tt
    rows_of-Met (x ∷ records) seen i rows h =
        go (truthy_text (field "request_id" x)) refl h
          (λ seen' j rows'. rows_of-Met records seen' j rows')
      where
        front : (rest : Option (List (Dict T))) → Added i x rest rows → Covered x rows
        front rest a = record {
          row = a.row;
          among = subst (HasRow a.row) (sym a.both) (inl refl);
          accounts = inl a.first;
        }

        shift :
            (d : Dict T) (rest : Option (List (Dict T))) (a : Added i x rest rows)
            → Covered d a.rows'
            → Covered d rows
        shift d rest a c = subst (Covered d) (sym a.both) (Covered-later d a.row a.rows' c)

        later :
            (r : T) (seen : List T) (rest : Option (List (Dict T))) (a : Added i x rest rows)
            → truthy_text (field "request_id" x) ≡ some r
            → (d : Dict T) → Met (r ∷ seen) a.rows' d
            → Met seen rows d
        later r seen rest a q d (inl c) = inl (shift d rest a c)
        later r seen rest a q d (inr (r', q', h)) = pick (f.same r' r) refl h
          where
            pick : (b : Bool) → f.same r' r ≡ b → (b || is_in f r' seen) ≡ true → Met seen rows d
            pick true same h = inl (record {
              row = a.row;
              among = subst (HasRow a.row) (sym a.both) (inl refl);
              accounts = inr (
                  Bills-SameRequest d x a.row r (q' ∙ ap some ((f.same_iff r' r).0 same)) q
                    a.first);
            })
            pick false other h = inr (r', q', h)

        fresh :
            (r : T)
            → truthy_text (field "request_id" x) ≡ some r
            → add_row e redis ledger
                (to_usage_row e redis ledger i x)
                (rows_of e redis ledger f records (r ∷ seen) (suc i))
              ≡ some rows
            → ((rows' : List (Dict T))
                → rows_of e redis ledger f records (r ∷ seen) (suc i) ≡ some rows'
                → All (Met (r ∷ seen) rows') records)
            → All (Met seen rows) (x ∷ records)
        fresh r q h ih =
            let a =
              add_row-Added i x (rows_of e redis ledger f records (r ∷ seen) (suc i)) rows h in
            (
              inl (front _ a),
              All-map (Met (r ∷ seen) a.rows') (Met seen rows) records (later r seen _ a q)
                  (ih a.rows' a.made),
            )

        go :
            (o : Option T)
            → truthy_text (field "request_id" x) ≡ o
            → rows_step e redis ledger f o seen
                (to_usage_row e redis ledger i x)
                (rows_of e redis ledger f records seen i)
                (λ seen' j. rows_of e redis ledger f records seen' j)
                i
              ≡ some rows
            → ((seen' : List T) (j : ℕ) (rows' : List (Dict T))
                → rows_of e redis ledger f records seen' j ≡ some rows'
                → All (Met seen' rows') records)
            → All (Met seen rows) (x ∷ records)
        go none q h ih =
            let a = add_row-Added i x (rows_of e redis ledger f records seen (suc i)) rows h in
            (
              inl (front _ a),
              All-map (Met seen a.rows') (Met seen rows) records (plain a)
                  (ih seen (suc i) a.rows' a.made),
            )
          where
            plain :
                (a : Added i x (rows_of e redis ledger f records seen (suc i)) rows) (d : Dict T)
                → Met seen a.rows' d
                → Met seen rows d
            plain a d (inl c) = inl (shift d _ a c)
            plain a d (inr m) = inr m
        go (some r) q h ih = pick (is_in f r seen) refl h
          where
            pick :
                (b : Bool)
                → is_in f r seen ≡ b
                → (if b
                    then rows_of e redis ledger f records seen i
                    else add_row e redis ledger
                        (to_usage_row e redis ledger i x)
                        (rows_of e redis ledger f records (r ∷ seen) (suc i)))
                  ≡ some rows
                → All (Met seen rows) (x ∷ records)
            pick true there h = (inr (r, q, there), ih seen i rows h)
            pick false new h = fresh r q h (λ rows'. ih (r ∷ seen) (suc i) rows')

    -- Each record of a batch is covered by its rows.
    pub rows_of-Covered :
        (records : List (Dict T)) (rows : List (Dict T))
        → rows_of e redis ledger f records [] 0 ≡ some rows
        → All (λ d. Covered d rows) records
    rows_of-Covered records rows h =
        All-map (Met [] rows) (λ d. Covered d rows) records met (rows_of-Met records [] 0 rows h)
      where
        met : (d : Dict T) → Met [] rows d → Covered d rows
        met d (inl c) = c
        met d (inr (r, q, there)) = absurd cc
