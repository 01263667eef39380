-- ===== src/Auth/PermCache/Served.antt =====
-- No permission from before an invalidation is served to a call that begins after it.
use mathlib.Core.Path.{subst}
use janus_server.Prelude.{
  ℕ, ◌≤◌, ◌==◌, ◌≡◌, refl, sym, ap, ◌∙◌, arith, Bool, true, false, Option, none, some,
  if◌then◌else◌,
}
use janus_server.Auth.PermCache.Defs.{
  PermissionSnapshot, SnapshotKey, same_key, SnapshotCodec, PermStore, Phase, begun, keyed, missed,
  loaded, bypassed, returned, raised, advance, invalidate,
}
use janus_server.Auth.PermCache.Readers.{
  Reader, World, set_reader, Step, commits, invalidates, begins, advances, ends, expires, Reachable,
  here, later,
}
use janus_server.Auth.PermCache.Generations.{same_key-eq, Below}
use janus_server.Auth.PermCache.Fresh.{
  Serves, Fine, Entries, SameCounters, Fine-suc, Fine-same, Current-same, Below-same,
  advance-SameCounters, advance-Fine,
}
use janus_server.Auth.PermCache.Invalidation.{Safe, floor', past', current', entries', fine'}

module _ {T : Type 0} (codec : SnapshotCodec T) (redis : PermStore T)
    (effective : ℕ → ℕ → PermissionSnapshot) where
  open redis use {
    Store, counter, snapshot, incr, set, delete, snapshot-incr, counter-set, snapshot-set,
    counter-delete, snapshot-delete,
  }

  -- The readers change at one place.
  set_reader-Fine :
      (fl : SnapshotKey → ℕ) (id : ℕ) (o : Option (Reader codec redis effective))
      (w : World codec redis effective) (s : Store)
      → ((r : Reader codec redis effective)
          → o ≡ some r
          → Fine codec redis effective fl s w.version w.invalidated r.user_id r.since r.phase)
      → ((i : ℕ) (r : Reader codec redis effective)
          → w.readers i ≡ some r
          → Fine codec redis effective fl s w.version w.invalidated r.user_id r.since r.phase)
      → (i : ℕ) (r : Reader codec redis effective)
      → set_reader codec redis effective id o w i ≡ some r
      → Fine codec redis effective fl s w.version w.invalidated r.user_id r.since r.phase
  set_reader-Fine fl id o w s own others i r = go (i == id)
    where
      go :
          (b : Bool)
          → (if b then o else w.readers i) ≡ some r
          → Fine codec redis effective fl s w.version w.invalidated r.user_id r.since r.phase
      go true q = own r q
      go false q = others i r q

  the_reader :
      (P : Reader codec redis effective → Type 0) (r r' : Reader codec redis effective)
      → ◌≡◌ {A = Option (Reader codec redis effective)} (some r) (some r')
      → P r
      → P r'
  the_reader P r r' q h = subst P (inner r r' q) h
    where
      inner :
          (r r' : Reader codec redis effective)
          → ◌≡◌ {A = Option (Reader codec redis effective)} (some r) (some r')
          → r ≡ r'
      inner r r' q = cc

  -- A text is written under a key.
  set-Entries :
      (fl : SnapshotKey → ℕ) (k : SnapshotKey) (x : PermissionSnapshot) (u n : ℕ) (s : Store)
      → k.user_id ≡ u
      → Below codec redis k s
      → Serves codec redis effective (fl k) n u x
      → Entries codec redis effective fl s n
      → Entries codec redis effective fl (set k (codec.encode x) s) n
  set-Entries fl k x u n s eq b (m, q, low, high) entries j t stored =
      go (same_key j k) refl (sym (snapshot-set j k (codec.encode x) s) ∙ stored)
    where
      same : SameCounters codec redis effective fl s (set k (codec.encode x) s)
      same g = counter-set g k (codec.encode x) s

      text_of : (t t' : T) → ◌≡◌ {A = Option T} (some t) (some t') → t' ≡ t
      text_of t t' h = cc

      Good : SnapshotKey → T → Type 0
      Good j t =
          Below codec redis j (set k (codec.encode x) s)
          × ((m : ℕ) × (t ≡ codec.encode (effective m j.user_id)) × (fl j ≤ m) × (m ≤ n))

      go :
          (c : Bool)
          → same_key j k ≡ c
          → (if c then some (codec.encode x) else snapshot j s) ≡ some t
          → Good j t
      go true r h =
          subst (λ i. Good i t) (sym (same_key-eq j k r))
            (
              Below-same codec redis effective fl s _ k same b,
              (m, text_of _ t h ∙ ap codec.encode (q ∙ ap (effective m) (sym eq)), low, high),
            )
      go false r h =
          let (b', rest) = entries j t h in
          (Below-same codec redis effective fl s _ j same b', rest)

  advance-Entries :
      (fl : SnapshotKey → ℕ) (s : Store) (n : ℕ) (inv : ℕ → ℕ) (u since : ℕ) (fails : Bool)
      (x : Phase)
      → Fine codec redis effective fl s n inv u since x
      → Entries codec redis effective fl s n
      → Entries codec redis effective fl (advance codec redis u fails (effective n u) x s).1 n
  unfolding advance
  advance-Entries fl s n inv u since true begun h entries = entries
  advance-Entries fl s n inv u since false begun h entries = entries
  advance-Entries fl s n inv u since true (keyed k) h entries = entries
  advance-Entries fl s n inv u since false (keyed k) h entries = entries
  advance-Entries fl s n inv u since fails (missed k) h entries = entries
  advance-Entries fl s n inv u since true (loaded k x) h entries = entries
  advance-Entries fl s n inv u since false (loaded k x) ((eq, b, h), served) entries =
      set-Entries fl k x u n s eq b served entries
  advance-Entries fl s n inv u since fails bypassed h entries = entries
  advance-Entries fl s n inv u since fails (returned x) h entries = entries
  advance-Entries fl s n inv u since fails raised h entries = entries

  delete-Entries :
      (fl : SnapshotKey → ℕ) (k : SnapshotKey) (n : ℕ) (s : Store)
      → Entries codec redis effective fl s n
      → Entries codec redis effective fl (delete k s) n
  delete-Entries fl k n s entries j t stored =
      go (same_key j k) (sym (snapshot-delete j k s) ∙ stored)
    where
      go :
          (c : Bool)
          → (if c then none else snapshot j s) ≡ some t
          → Below codec redis j (delete k s)
            × ((m : ℕ) × (t ≡ codec.encode (effective m j.user_id)) × (fl j ≤ m) × (m ≤ n))
      go true h = absurd cc
      go false h =
          let (b', rest) = entries j t h in
          (
            Below-same codec redis effective fl s (delete k s) j (λ g. counter-delete g k s) b',
            rest,
          )

  Step-Safe :
      {w v : World codec redis effective}
      → Step codec redis effective w v
      → Safe codec redis effective w
      → Safe codec redis effective v
  unfolding invalidate
  Step-Safe {w} commits safe = record {
    floor = safe.floor;
    past = λ k. omega (arith, safe.past k);
    current = safe.current;
    entries = λ k t q.
        let (b, (m, made, low, high)) = safe.entries k t q in (b, (m, made, low, omega arith));
    fine = λ id r q.
        Fine-suc codec redis effective safe.floor w.store w.version w.invalidated r.user_id r.since
          r.phase (safe.fine id r q);
  }
  Step-Safe {w} (invalidates g) safe = record {
    floor = floor' codec redis effective g w safe;
    past = past' codec redis effective g w safe;
    current = current' codec redis effective g w safe;
    entries = entries' codec redis effective g w safe;
    fine =
        λ id r q. fine' codec redis effective g w safe r.user_id r.since r.phase (safe.fine id r q);
  }
  Step-Safe {w} (begins id user_id free) safe = record {
    floor = safe.floor;
    past = safe.past;
    current = safe.current;
    entries = safe.entries;
    fine =
        set_reader-Fine safe.floor id
          (some (record { user_id = user_id; phase = begun; since = w.invalidated user_id })) w
          w.store
          (λ r q.
            the_reader
              (λ r.
                Fine codec redis effective safe.floor w.store w.version w.invalidated r.user_id
                  r.since r.phase)
              (record { user_id = user_id; phase = begun; since = w.invalidated user_id }) r q
              (omega arith))
          safe.fine;
  }
  Step-Safe {w} (advances id r fails q) safe =
      let v = effective w.version r.user_id in
      let same =
        advance-SameCounters codec redis effective safe.floor r.user_id fails v r.phase w.store in
      let s2 : Store = (advance codec redis r.user_id fails v r.phase w.store).1 in
      record {
        floor = safe.floor;
        past = safe.past;
        current =
            Current-same codec redis effective safe.floor w.store s2 w.invalidated same
              safe.current;
        entries =
            advance-Entries safe.floor w.store w.version w.invalidated r.user_id r.since fails
              r.phase (safe.fine id r q) safe.entries;
        fine =
            set_reader-Fine safe.floor id
              (some
                (record r { phase = (advance codec redis r.user_id fails v r.phase w.store).0 }))
              w s2
              (λ r' q'.
                the_reader
                  (λ r.
                    Fine codec redis effective safe.floor s2 w.version w.invalidated r.user_id
                      r.since r.phase)
                  (record r { phase = (advance codec redis r.user_id fails v r.phase w.store).0 })
                  r' q'
                  (Fine-same codec redis effective safe.floor w.store s2 w.version w.invalidated
                    r.user_id r.since (advance codec redis r.user_id fails v r.phase w.store).0 same
                    (advance-Fine codec redis effective safe.floor w.store w.version w.invalidated
                      r.user_id r.since fails r.phase safe.past safe.current safe.entries
                      (safe.fine id r q))))
              (λ i r' q'.
                Fine-same codec redis effective safe.floor w.store s2 w.version w.invalidated
                  r'.user_id r'.since r'.phase same (safe.fine i r' q'));
      }
  Step-Safe {w} (ends id) safe = record {
    floor = safe.floor;
    past = safe.past;
    current = safe.current;
    entries = safe.entries;
    fine = set_reader-Fine safe.floor id none w w.store (λ r q. absurd cc) safe.fine;
  }
  Step-Safe {w} (expires k) safe =
      let same : SameCounters codec redis effective safe.floor w.store (delete k w.store) =
        λ g. counter-delete g k w.store in
      record {
        floor = safe.floor;
        past = safe.past;
        current =
            Current-same codec redis effective safe.floor w.store (delete k w.store) w.invalidated
              same safe.current;
        entries = delete-Entries safe.floor k w.version w.store safe.entries;
        fine = λ id r q.
            Fine-same codec redis effective safe.floor w.store (delete k w.store) w.version
              w.invalidated r.user_id r.since r.phase same (safe.fine id r q);
      }

  Reachable-Safe :
      {w v : World codec redis effective}
      → Reachable codec redis effective w v
      → Safe codec redis effective w
      → Safe codec redis effective v
  Reachable-Safe here safe = safe
  Reachable-Safe (later path step) safe = Step-Safe step (Reachable-Safe path safe)

  -- From a world with an empty cache and no calls, after any steps of readers and writers, in any
  -- order, with round trips that fail and snapshots that expire: a call of load_snapshot that returns
  -- gives what its user may do at some version of the database that is no older than the last
  -- invalidation of the user that had run when the call began, and no newer than the present one.
  pub Reachable-Serves :
      (w v : World codec redis effective) (id : ℕ) (r : Reader codec redis effective)
      (x : PermissionSnapshot)
      → ((k : SnapshotKey) → snapshot k w.store ≡ none)
      → ((i : ℕ) → w.readers i ≡ none)
      → ((u : ℕ) → w.invalidated u ≡ 0)
      → Reachable codec redis effective w v
      → v.readers id ≡ some r
      → r.phase ≡ returned x
      → (m : ℕ) × (x ≡ effective m r.user_id) × (r.since ≤ m) × (m ≤ v.version)
  Reachable-Serves w v id r x no_entries idle fresh path q phase =
      let safe = Reachable-Safe path (record {
        floor = λ k. 0;
        past = λ k. omega arith;
        current = λ u. sym (fresh u);
        entries = λ k t q. absurd (cc (no_entries k, q));
        fine = λ i r q. absurd (cc (idle i, q));
      }) in
      subst
        (Fine codec redis effective safe.floor v.store v.version v.invalidated r.user_id r.since)
        phase (safe.fine id r q)
