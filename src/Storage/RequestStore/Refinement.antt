-- ===== src/Storage/RequestStore/Refinement.antt =====
-- The map and the queue of the store implement the list of the last exchanges.
use http_stack_lens.Base.{
  ℕ, suc, ◌-◌, ◌≤◌, ◌≡◌, refl, sym, ap, ◌∙◌, arith, false, none, some, List, [], ◌∷◌, ◌++◌, Bytes,
  length, length-drop, drop, ltb, if◌then◌else◌, equal_refl, ltb→lt, ltb-false→le, zero,
  Option-cases, inl, inr, Bool-cases, lookup, insert, delete, keys, Distinct, has, insert_new,
  keys-insert_old, delete_absent, keys-append, lookup-none, Distinct-append,
}
use http_stack_lens.Storage.RequestStore.{
  CapturedExchange, RequestStore, new_request_store, evict, enqueue, put_request, put_response,
  put_timing, get, len, clear,
}
use http_stack_lens.Storage.RequestStore.Spec.{
  Op, request, response, timing, clear_all, apply, run, History, find, blank, keep_last, revise,
  arrive, expected, run_spec, set_request, set_response, set_timing,
}

abbrev Entries : Type 0
Entries = List (Bytes × CapturedExchange)

abbrev pub values : Entries → History
values [] = []
values ((k, e) ∷ m) = e ∷ values m

abbrev pub view : RequestStore → History
view s = values s.entries

-- Each exchange is filed under its own id.
abbrev Labelled : Entries → Type 0
Labelled [] = Unit
Labelled ((k, e) ∷ m) = (e.correlation_id ≡ k) × Labelled m

pub record IsValid (s : RequestStore) : Type 0 where
  pub max_pos : 1 ≤ s.max
  pub same_keys : keys s.entries ≡ s.queue
  pub distinct : Distinct s.queue
  pub labelled : Labelled s.entries
  pub bounded : length s.queue ≤ s.max

length-keys : (m : Entries) → length (keys m) ≡ length m
length-keys [] = refl
length-keys ((k, e) ∷ m) = ap suc (length-keys m)

length-values : (m : Entries) → length (values m) ≡ length m
length-values [] = refl
length-values ((k, e) ∷ m) = ap suc (length-values m)

find-values : (id : Bytes) (m : Entries) → Labelled m → find id (values m) ≡ lookup id m
unfolding find lookup
find-values id [] l = refl
find-values id ((k, e) ∷ m) (named, l) = rw (named, find-values id m l)

-- The loop drops the oldest entries of the queue and of the map together.
evict-drop :
    (max : ℕ) (m : Entries)
    → Distinct (keys m)
    → evict max (keys m) m ≡ (drop (length m - max) (keys m), drop (length m - max) m)
unfolding evict delete
evict-drop max [] d = let none_over : 0 - max ≡ 0 = omega arith in rw none_over
evict-drop max ((k, e) ∷ m) (fresh, d) = elim (Bool-cases (ltb max (length (keys ((k, e) ∷ m))))) [
  | inl over ↦
      let one_more : suc (length m) - max ≡ suc (length m - max) =
        omega (arith, length-keys m, ltb→lt _ _ over) in
      rw (over, one_more, equal_refl k, delete_absent k m fresh) (evict-drop max m d)
  | inr within ↦
      let none_over : suc (length m) - max ≡ 0 =
        omega (arith, length-keys m, ltb-false→le _ _ within) in
      rw (within, none_over)
]

keys-drop : (n : ℕ) (m : Entries) → keys (drop n m) ≡ drop n (keys m)
keys-drop zero m = refl
keys-drop (suc n) [] = refl
keys-drop (suc n) ((k, e) ∷ m) = keys-drop n m

values-drop : (n : ℕ) (m : Entries) → values (drop n m) ≡ drop n (values m)
values-drop zero m = refl
values-drop (suc n) [] = refl
values-drop (suc n) ((k, e) ∷ m) = values-drop n m

values-append : (m n : Entries) → values (m ++ n) ≡ values m ++ values n
values-append [] n = refl
values-append ((k, e) ∷ m) n = ap (◌∷◌ e) (values-append m n)

Distinct-drop : (n : ℕ) (ks : List Bytes) → Distinct ks → Distinct (drop n ks)
Distinct-drop zero ks d = d
Distinct-drop (suc n) [] d = d
Distinct-drop (suc n) (k ∷ ks) d = Distinct-drop n ks d.1

Labelled-drop : (n : ℕ) (m : Entries) → Labelled m → Labelled (drop n m)
Labelled-drop zero m l = l
Labelled-drop (suc n) [] l = l
Labelled-drop (suc n) ((k, e) ∷ m) l = Labelled-drop n m l.1

Labelled-append :
    (m : Entries) (k : Bytes) (e : CapturedExchange)
    → Labelled m
    → e.correlation_id ≡ k
    → Labelled (m ++ (k, e) ∷ [])
Labelled-append [] k e l named = (named, tt)
Labelled-append ((j, f) ∷ m) k e (n, l) named = (n, Labelled-append m k e l named)

-- A new exchange: filed last, and the oldest dropped when there are too many.
module _ (s : RequestStore) (e : CapturedExchange) (v : IsValid s)
    (absent : lookup e.correlation_id s.entries ≡ none) where
  abbrev grown : Entries
  grown = s.entries ++ (e.correlation_id, e) ∷ []

  abbrev over : ℕ
  over = length grown - s.max

  keys-grown : keys grown ≡ s.queue ++ e.correlation_id ∷ []
  keys-grown =
      keys-append s.entries ((e.correlation_id, e) ∷ [])
      ∙ ap (λ q. q ++ e.correlation_id ∷ []) v.same_keys

  fresh : has e.correlation_id s.queue ≡ false
  fresh = rw (← v.same_keys) (lookup-none e.correlation_id s.entries absent)

  Distinct-grown : Distinct (keys grown)
  Distinct-grown = rw keys-grown (Distinct-append s.queue e.correlation_id v.distinct fresh)

  enqueue-drop :
      enqueue e s ≡ record s { queue = drop over (keys grown); entries = drop over grown }
  unfolding enqueue
  enqueue-drop =
      rw (insert_new e.correlation_id e s.entries absent, ← keys-grown)
        (rw (evict-drop s.max grown Distinct-grown))

  enqueue-IsValid : IsValid (enqueue e s)
  enqueue-IsValid = rw enqueue-drop (record {
    max_pos = v.max_pos;
    same_keys = keys-drop over grown;
    distinct = Distinct-drop over (keys grown) Distinct-grown;
    labelled =
        Labelled-drop over grown (Labelled-append s.entries e.correlation_id e v.labelled refl);
    bounded = omega (arith, length-drop over (keys grown), length-keys grown);
  })

  view-enqueue : view (enqueue e s) ≡ keep_last s.max (view s ++ e ∷ [])
  view-enqueue = rw enqueue-drop (values-drop over grown ∙ same)
    where
      all : values grown ≡ view s ++ e ∷ []
      all = values-append s.entries ((e.correlation_id, e) ∷ [])

      same : drop over (values grown) ≡ keep_last s.max (view s ++ e ∷ [])
      same = rw (← length-values grown) (ap (keep_last s.max) all)

-- A part that joins the exchange it belongs to.
module _ (id : Bytes) (change : CapturedExchange → CapturedExchange)
    (keeps : (e : CapturedExchange) → (change e).correlation_id ≡ e.correlation_id) where
  values-insert :
      (m : Entries) (e : CapturedExchange)
      → Labelled m
      → lookup id m ≡ some e
      → values (insert id (change e) m) ≡ revise id change (values m)
  unfolding lookup insert revise
  values-insert [] e l h = cc
  values-insert ((k, f) ∷ m) e (named, l) h = rw named (ground (arith, values-insert m e l))

  Labelled-insert :
      (m : Entries) (e : CapturedExchange)
      → Labelled m
      → lookup id m ≡ some e
      → Labelled (insert id (change e) m)
  unfolding lookup insert
  Labelled-insert [] e l h = cc
  Labelled-insert ((k, f) ∷ m) e (named, l) h = ground (arith, keeps e, Labelled-insert m e l)

  assign-IsValid :
      (s : RequestStore) (e : CapturedExchange)
      → IsValid s
      → lookup id s.entries ≡ some e
      → IsValid (record s { entries = insert id (change e) s.entries })
  assign-IsValid s e v h = record {
    max_pos = v.max_pos;
    same_keys = keys-insert_old id (change e) s.entries e h ∙ v.same_keys;
    distinct = v.distinct;
    labelled = Labelled-insert s.entries e v.labelled h;
    bounded = v.bounded;
  }

abbrev Refines : RequestStore → ℕ → History → Type 0
Refines s bound h = (view s ≡ h) × IsValid s × (s.max ≡ bound)

-- The shape that the three Put methods share.
abbrev put_with : Bytes → (CapturedExchange → CapturedExchange) → ℕ → RequestStore → RequestStore
put_with id change now s = elim (lookup id s.entries) [
  | some e ↦ record s { entries = insert id (change e) s.entries }
  | none ↦ enqueue (change (blank id now)) s
]

put_with-Refines :
    (id : Bytes) (change : CapturedExchange → CapturedExchange) (now : ℕ) (s : RequestStore)
    → ((e : CapturedExchange) → (change e).correlation_id ≡ e.correlation_id)
    → IsValid s
    → Refines (put_with id change now s) s.max (arrive s.max id now change (view s))
unfolding arrive
put_with-Refines id change now s keeps v = elim (Option-cases (lookup id s.entries)) [
  | inl absent ↦
      let e = change (blank id now) in
      let absent' : lookup e.correlation_id s.entries ≡ none = rw (keeps (blank id now)) absent in
      rw (absent, put_with, find-values id s.entries v.labelled, arrive, absent)
        (view-enqueue s e v absent', enqueue-IsValid s e v absent', rw (enqueue-drop s e v absent'))
  | inr (e, there) ↦
      rw (there, put_with, find-values id s.entries v.labelled, arrive, there)
        (
          values-insert id change keeps s.entries e v.labelled there,
          assign-IsValid id change keeps s e v there,
          refl,
        )
]

apply-Refines :
    (op : Op) (s : RequestStore)
    → IsValid s
    → Refines (apply op s) s.max (expected s.max op (view s))
unfolding put_request put_response put_timing clear
apply-Refines (request id rec now) s v = put_with-Refines id (set_request rec) now s (λ e. refl) v
apply-Refines (response id rec now) s v = put_with-Refines id (set_response rec) now s (λ e. refl) v
apply-Refines (timing id t now) s v = put_with-Refines id (set_timing t) now s (λ e. refl) v
apply-Refines clear_all s v = (
  refl,
  record {
    max_pos = v.max_pos;
    same_keys = refl;
    distinct = tt;
    labelled = tt;
    bounded = omega arith;
  },
  refl,
)

run-Refines :
    (ops : List Op) (s : RequestStore)
    → IsValid s
    → Refines (run ops s) s.max (run_spec s.max ops (view s))
unfolding run run_spec
run-Refines [] s v = (refl, v, refl)
run-Refines (op ∷ ops) s v =
    let (seen, valid, bound) = apply-Refines op s v in
    rw (bound, seen) at (run-Refines ops (apply op s) valid)

new_request_store-IsValid : (max : ℕ) → IsValid (new_request_store max)
unfolding new_request_store
new_request_store-IsValid max = ground arith

-- After any calls on a new store, `Get` answers what the list of the last exchanges says and `Len`
-- its length, which is at most the bound; the bound is the size asked for, and at least 1.
pub store-refines :
    (max : ℕ) (ops : List Op)
    → (let s = run ops (new_request_store max) in
        let bound = if ltb max 1 then 1 else max in
        let h = run_spec bound ops [] in
        ((id : Bytes) → get id s ≡ find id h) × (len s ≡ length h) × (length h ≤ bound))
unfolding new_request_store get len
store-refines max ops =
    let (seen, valid, bound) =
      run-Refines ops (new_request_store max) (new_request_store-IsValid max) in
    let s = run ops (new_request_store max) in
    let size : length s.entries ≡ length (view s) = sym (length-values s.entries) in
    (
      λ id. sym (find-values id s.entries valid.labelled) ∙ ap (find id) seen,
      size ∙ ap length seen,
      omega (
        arith,
        valid.bounded,
        bound,
        size,
        ap length seen,
        ap length valid.same_keys,
        length-keys s.entries,
      ),
    )
