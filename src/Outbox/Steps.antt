-- ===== src/Outbox/Steps.antt =====
-- What each call does to the billing outbox of apps/longhub-cloud-api/src/memory-store.ts.
use Prim.Native.String.{◌++◌ as ◌<>◌}
use mathlib.Core.List.{Memᴰ}
use mathlib.Core.List.Memᴰ
use mathlib.Core.Option
use longhub_platform.Common.{
  ℕ, zero, suc, ◌+◌, String, Bool, true, false, Option, none, some, List, [], ◌∷◌, ◌≡◌, refl, ◌∙◌,
  sym, ap, ◌⊎◌, inl, inr, arith, ◌&&◌, Bool-cases, Option-cases, ◌=s◌, if◌then◌else◌, map, take,
}
use longhub_platform.Common.Sorting.{mem_of_select, mem_of_sort_by}
use longhub_platform.Common.Keyed
use longhub_platform.Common.Keyed.{Keyed, Distinct}
use longhub_platform.Outbox.{
  OutboxRecord, ClaimParams, FailureParams, claim, claim_at, complete, fail, lock, lock_entries,
  names, due_entries, is_due, holds, parse_outbox_time, normalize_outbox_limit,
  normalize_outbox_lease, is_error_code, parse_end, published_row, failed_row,
}

-- A call of the outbox, with its fresh identifier and clock.
pub data Call : Type 0 where
  claims : String → ℕ → ClaimParams → Call
  completes : ℕ → String → String → Option (Option ℕ) → Call
  fails : ℕ → FailureParams → Call

unfoldable pub step : (String → String → Bool) → Keyed OutboxRecord → Call → Keyed OutboxRecord
step follows s (claims uuid clock p) = (claim follows s uuid clock p).0
step follows s (completes clock id token at) = (complete s clock id token at).0
step follows s (fails clock p) = (fail s clock p).0

unfoldable pub run : (String → String → Bool) → Keyed OutboxRecord → List Call → Keyed OutboxRecord
run follows s [] = s
run follows s (c ∷ cs) = run follows (step follows s c) cs

-- The entry's key is the identifier of its record.
abbrev pub IsNamed : Keyed OutboxRecord → Type 0
IsNamed s = (id : String) (r : OutboxRecord) → Keyed.get id s ≡ some r → r.outbox_id ≡ id

pub get-lock_entries :
    (token : String) (until : ℕ) (ids : List String) (k : String) (s : Keyed OutboxRecord)
    → Keyed.get k (lock_entries token until ids s)
      ≡ Option.map (λ r. if names k ids then lock token until r else r) (Keyed.get k s)
unfolding Keyed.get lock_entries
get-lock_entries token until ids k [] = refl
get-lock_entries token until ids k ((j, r) ∷ s) = elim (Bool-cases (j =s k)) [
  | inl same ↦
      let e : j ≡ k = ground arith in
      rw same (ap (λ (i : String). some (if names i ids then lock token until r else r)) e)
  | inr other ↦ rw other (get-lock_entries token until ids k s)
]

get-lock_entries-none :
    (token : String) (until : ℕ) (ids : List String) (k : String) (s : Keyed OutboxRecord)
    → Keyed.get k s ≡ none
    → Keyed.get k (lock_entries token until ids s) ≡ none
get-lock_entries-none token until ids k s h = get-lock_entries token until ids k s ∙ rw h

pub lock_entries-Distinct :
    (token : String) (until : ℕ) (ids : List String) (s : Keyed OutboxRecord)
    → Distinct s
    → Distinct (lock_entries token until ids s)
unfolding lock_entries
lock_entries-Distinct token until ids [] d = tt
lock_entries-Distinct token until ids ((j, r) ∷ s) d =
    (get-lock_entries-none token until ids j s d.0, lock_entries-Distinct token until ids s d.1)

get_of_mem :
    (e : String × OutboxRecord) (s : Keyed OutboxRecord)
    → Distinct s
    → Memᴰ e s
    → Keyed.get e.0 s ≡ some e.1
unfolding Keyed.get
get_of_mem e [] d m = elim m [ ]
get_of_mem e ((j, r) ∷ s) d (Memᴰ.head h) =
    let key : e.0 ≡ j = ap (λ (p : String × OutboxRecord). p.0) h in
    let row : e.1 ≡ r = ap (λ (p : String × OutboxRecord). p.1) h in ground arith
get_of_mem e ((j, r) ∷ s) d (Memᴰ.tail m) = elim (Bool-cases (j =s e.0)) [
  | inl same ↦
      let key : j ≡ e.0 = ground arith in
      let both : none ≡ some e.1 =
        sym d.0 ∙ ap (λ (k : String). Keyed.get k s) key ∙ get_of_mem e s d.1 m in
      cc both
  | inr other ↦ rw other (get_of_mem e s d.1 m)
]

mem_of_take :
    (n : ℕ) (e : String × OutboxRecord) (s : Keyed OutboxRecord) → Memᴰ e (take n s) → Memᴰ e s
mem_of_take zero e s m = elim m [ ]
mem_of_take (suc n) e [] m = elim m [ ]
mem_of_take (suc n) e (x ∷ s) m = elim (Memᴰ.cases_cons m) [
  | inl h ↦ Memᴰ.head h
  | inr t ↦ Memᴰ.tail (mem_of_take n e s t)
]

-- An entry that a claim takes stands in the outbox and is due.
pub due_facts :
    (follows : String → String → Bool) (now limit : ℕ) (e : String × OutboxRecord)
    (s : Keyed OutboxRecord)
    → Distinct s
    → Memᴰ e (due_entries follows now limit s)
    → (Keyed.get e.0 s ≡ some e.1) × (is_due now e.1 ≡ true)
due_facts follows now limit e s d m =
    let (held, due) =
      mem_of_select (λ (p : String × OutboxRecord). is_due now p.1) e s
        (mem_of_sort_by _ e _ (mem_of_take limit e _ m)) in
    (get_of_mem e s d held, due)

names_mem :
    (k : String) (es : Keyed OutboxRecord)
    → names k (map (λ e. e.0) es) ≡ true
    → (e : String × OutboxRecord) × Memᴰ e es × (e.0 ≡ k)
names_mem k [] h = cc
names_mem k (e ∷ es) h = elim (Bool-cases (e.0 =s k)) [
  | inl same ↦ (e, Memᴰ.head refl, ground arith)
  | inr other ↦
      let rest : names k (map (λ e. e.0) es) ≡ true = ground arith in
      let (f, m, key) = names_mem k es rest in (f, Memᴰ.tail m, key)
]

pub mem_names :
    (e : String × OutboxRecord) (es : Keyed OutboxRecord)
    → Memᴰ e es
    → names e.0 (map (λ f. f.0) es) ≡ true
mem_names e [] m = elim m [ ]
mem_names e (f ∷ es) (Memᴰ.head h) =
    let key : e.0 ≡ f.0 = ap (λ (p : String × OutboxRecord). p.0) h in ground arith
mem_names e (f ∷ es) (Memᴰ.tail m) = ground (arith, mem_names e es m)

-- A record that is not due is left as it is.
pub not_due_kept :
    (follows : String → String → Bool) (token : String) (now until limit : ℕ) (k : String)
    (r : OutboxRecord) (s : Keyed OutboxRecord)
    → Distinct s
    → Keyed.get k s ≡ some r
    → is_due now r ≡ false
    → Keyed.get k (claim_at follows s token now until limit).0 ≡ some r
not_due_kept follows token now until limit k r s d found idle =
    let ids = map (λ (e : String × OutboxRecord). e.0) (due_entries follows now limit s) in
    get-lock_entries token until ids k s
    ∙ rw found (elim (Bool-cases (names k ids)) [
      | inl taken ↦
          let (e, m, key) = names_mem k (due_entries follows now limit s) taken in
          let (there, due) = due_facts follows now limit e s d m in
          let same : some e.1 ≡ some r =
            sym there ∙ ap (λ (j : String). Keyed.get j s) key ∙ found in
          let row : e.1 ≡ r = cc in
          let both : true ≡ false = sym due ∙ ap (is_due now) row ∙ idle in cc both
      | inr left ↦ rw left refl
    ])

-- A claim does nothing, or it takes the due entries at its time.
pub claim_cases :
    (follows : String → String → Bool) (s : Keyed OutboxRecord) (uuid : String) (clock : ℕ)
    (p : ClaimParams)
    → (claim follows s uuid clock p ≡ (s, []))
      ⊎ ((limit : ℕ) × (lease : ℕ) × (now : ℕ) × (normalize_outbox_lease p.lease_ms ≡ some lease)
          × (parse_outbox_time clock p.now ≡ some now)
          × (claim follows s uuid clock p
              ≡ claim_at follows s ("bol-" <> uuid) now (now + lease) limit))
unfolding claim
claim_cases follows s uuid clock p = elim (Option-cases (normalize_outbox_limit p.limit)) [
  | inl e ↦ inl (rw (e, claim))
  | inr (limit, e) ↦ elim (Option-cases (normalize_outbox_lease p.lease_ms)) [
    | inl e' ↦ inl (rw (e, claim) (rw e'))
    | inr (lease, e') ↦ elim (Option-cases (parse_outbox_time clock p.now)) [
      | inl e'' ↦ inl (rw (e, claim) (rw e' (rw e'')))
      | inr (now, e'') ↦ inr (limit, lease, now, e', e'', rw (e, claim) (rw e' (rw e'')))
    ]
  ]
]

-- A call of `complete` does nothing, or writes over the entry whose lease the caller holds.
pub complete_cases :
    (s : Keyed OutboxRecord) (clock : ℕ) (id token : String) (at : Option (Option ℕ))
    → ((complete s clock id token at).0 ≡ s)
      ⊎ ((r : OutboxRecord) × (u : OutboxRecord) × (t : ℕ) × (Keyed.get id s ≡ some r)
          × (holds r token t ≡ true)
          × ((complete s clock id token at).0 ≡ Keyed.set id u s))
unfolding complete
complete_cases s clock id token at = elim (Option-cases (Keyed.get id s)) [
  | inl e ↦ inl (rw (e, complete))
  | inr (r, e) ↦ elim (Option-cases (parse_outbox_time clock at)) [
    | inl e' ↦ inl (rw (e, complete) (rw e'))
    | inr (t, e') ↦ elim (Bool-cases (holds r token t)) [
      | inl h ↦ inr (r, published_row t r, t, e, h, rw (e, complete) (rw e' (rw h refl)))
      | inr h ↦ inl (rw (e, complete) (rw e' (rw h refl)))
    ]
  ]
]

pub fail_cases :
    (s : Keyed OutboxRecord) (clock : ℕ) (p : FailureParams)
    → ((fail s clock p).0 ≡ s)
      ⊎ ((r : OutboxRecord) × (u : OutboxRecord) × (t : ℕ) × (Keyed.get p.outbox_id s ≡ some r)
          × (holds r p.lock_token t ≡ true)
          × ((fail s clock p).0 ≡ Keyed.set p.outbox_id u s))
unfolding fail
fail_cases s clock p = elim (Option-cases (Keyed.get p.outbox_id s)) [
  | inl e ↦ inl (rw (e, fail))
  | inr (r, e) ↦ elim (Option-cases (parse_outbox_time clock p.failed_at)) [
    | inl e1 ↦ inl (rw (e, fail) (rw e1))
    | inr (t, e1) ↦ elim (Option-cases p.retry_at) [
      | inl e2 ↦ inl (rw (e, fail) (rw e1 (rw e2)))
      | inr (retry, e2) ↦ elim (Option-cases (parse_end p.dead_lettered_at)) [
        | inl e3 ↦ inl (rw (e, fail) (rw e1 (rw e2 (rw e3))))
        | inr (ended, e3) ↦
            elim (Bool-cases (holds r p.lock_token t && is_error_code p.error_code)) [
              | inl h ↦ inr (
                r,
                failed_row retry ended p.error_code r,
                t,
                e,
                ground arith,
                rw (e, fail) (rw e1 (rw e2 (rw e3 (rw h refl)))),
              )
              | inr h ↦ inl (rw (e, fail) (rw e1 (rw e2 (rw e3 (rw h refl)))))
            ]
      ]
    ]
  ]
]
