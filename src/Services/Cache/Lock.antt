-- ===== src/Services/Cache/Lock.antt =====
-- src/llm_gateway/services/cache.py: runs of `acquire_lock` and `release_lock` by several replicas.
use myown_llm_gateway.Base.{
  ℕ, ◌+◌, ◌*◌, ◌<◌, String, Bool, false, Option, none, some, List, [], ◌∷◌, str_eq, eq_iff,
  if◌then◌else◌, ◌≡◌, ◌≢◌, refl, ◌⊎◌, inl, inr, arith, ◌∙◌, ap, is_none, Bool-cases, All, All-map,
  eq_refl,
}
use myown_llm_gateway.Base.Dict.{Dict, lookup, lookup-insert}
use myown_llm_gateway.Core.RateLimiter.{Delivery, answered, lost, unanswered}
use myown_llm_gateway.Services.Cache.{
  Redis, live, delete, seconds, ceil_seconds, set_nx, acquire_lock, compare_and_delete,
  release_lock, holds,
}

-- What replicas do to the lock table: each on a key, with a token, at a time.
pub data LockOp : Type 0 where
  acquire : String → String → ℕ → Delivery → ℕ → LockOp
  release : String → String → Delivery → ℕ → LockOp

abbrev pub after : LockOp → Redis → Redis
after (acquire key token ttl d now) r = (acquire_lock key token ttl d now r).1
after (release key token d now) r = release_lock key token d now r

-- The token that the operation hands out.
abbrev pub granted : LockOp → Redis → Option String
granted (acquire key token ttl d now) r = (acquire_lock key token ttl d now r).0
granted (release key token d now) r = none

abbrev time_of : LockOp → ℕ
time_of (acquire key token ttl d now) = now
time_of (release key token d now) = now

-- Any operation but a release by `token` itself.
abbrev IsOther : String → LockOp → Type 0
IsOther token (acquire key token' ttl d now) = Unit
IsOther token (release key token' d now) = token' ≢ token

abbrev pub about : String → LockOp → Bool
about key (acquire key' token ttl d now) = str_eq key' key
about key (release key' token d now) = str_eq key' key

-- Nobody is granted the lock of `key` in the run.
abbrev pub NoGrant : String → List LockOp → Redis → Type 0
NoGrant key [] r = Unit
NoGrant key (op ∷ ops) r =
    ((about key op ≡ false) ⊎ (granted op r ≡ none)) × NoGrant key ops (after op r)

abbrev pub run_ops : List LockOp → Redis → Redis
run_ops [] r = r
run_ops (op ∷ ops) r = run_ops ops (after op r)

abbrev Held : String → String → ℕ → Redis → Type 0
Held key token until r = lookup key r.locks ≡ some (token, until)

pub lookup-delete :
    {V : Type 0} (k j : String) (d : Dict V)
    → lookup j (delete k d) ≡ (if str_eq k j then none else lookup j d)
lookup-delete k j [] = ground arith
lookup-delete k j ((i, w) ∷ d) =
    ground (arith, eq_iff j k, eq_iff k i, eq_iff j i, eq_iff k j, lookup-delete k j d)

live-some : {V : Type 0} (now until : ℕ) (v : V) → now < until → live now (some (v, until)) ≡ some v
live-some now until v h = ground arith

-- A lock that is held cannot be set.
set_nx_held :
    (key token token' : String) (ttl now until : ℕ) (locks : Dict (String × ℕ))
    → lookup key locks ≡ some (token, until)
    → now < until
    → set_nx key token' ttl now locks ≡ (false, locks)
unfolding set_nx
set_nx_held key token token' ttl now until locks held h =
    rw held (rw (live-some now until token h) refl)

-- An attempt on another key leaves the lock of `key` alone.
lookup-set_nx_ne :
    (key key' token : String) (ttl now : ℕ) (locks : Dict (String × ℕ))
    → str_eq key key' ≡ false
    → lookup key (set_nx key' token ttl now locks).1 ≡ lookup key locks
unfolding set_nx
lookup-set_nx_ne key key' token ttl now locks ne =
    elim (Bool-cases (is_none (live now (lookup key' locks)))) [
      | inl free ↦ rw free (lookup-insert key' key _ locks ∙ rw ne refl)
      | inr taken ↦ rw taken refl
    ]

pub acquire_lock_taken :
    (key token token' : String) (ttl now until : ℕ) (d : Delivery) (r : Redis)
    → Held key token until r
    → now < until
    → acquire_lock key token' ttl d now r ≡ (none, r)
unfolding acquire_lock
acquire_lock_taken key token token' ttl now until answered r held h =
    rw (set_nx_held key token token' (ceil_seconds ttl) now until r.locks held h)
acquire_lock_taken key token token' ttl now until lost r held h = refl
acquire_lock_taken key token token' ttl now until unanswered r held h =
    rw (set_nx_held key token token' (ceil_seconds ttl) now until r.locks held h)

acquire_lock_elsewhere :
    (key key' token token' : String) (ttl now until : ℕ) (d : Delivery) (r : Redis)
    → Held key token until r
    → str_eq key key' ≡ false
    → Held key token until (acquire_lock key' token' ttl d now r).1
unfolding acquire_lock
acquire_lock_elsewhere key key' token token' ttl now until answered r held ne =
    lookup-set_nx_ne key key' token' (ceil_seconds ttl) now r.locks ne ∙ held
acquire_lock_elsewhere key key' token token' ttl now until lost r held ne = held
acquire_lock_elsewhere key key' token token' ttl now until unanswered r held ne =
    lookup-set_nx_ne key key' token' (ceil_seconds ttl) now r.locks ne ∙ held

-- Only the holder's token deletes the lock.
lookup-compare_and_delete :
    (key key' token token' : String) (now until : ℕ) (locks : Dict (String × ℕ))
    → lookup key locks ≡ some (token, until)
    → now < until
    → token' ≢ token
    → lookup key (compare_and_delete key' token' now locks) ≡ some (token, until)
unfolding compare_and_delete
lookup-compare_and_delete key key' token token' now until locks held h ne =
    elim (Bool-cases (str_eq key' key)) [
      | inl same ↦
          let e : key' ≡ key = (eq_iff key' key).0 same in
          rw e
            (rw held (rw (live-some now until token h) (ground (arith, eq_iff token token', held))))
      | inr elsewhere ↦ elim (Bool-cases (holds token' (live now (lookup key' locks)))) [
        | inl mine ↦ rw mine (lookup-delete key' key locks ∙ rw elsewhere held)
        | inr not_mine ↦ rw not_mine held
      ]
    ]

release_lock-Held :
    (key key' token token' : String) (now until : ℕ) (d : Delivery) (r : Redis)
    → Held key token until r
    → now < until
    → token' ≢ token
    → Held key token until (release_lock key' token' d now r)
unfolding release_lock
release_lock-Held key key' token token' now until lost r held h ne = held
release_lock-Held key key' token token' now until answered r held h ne =
    lookup-compare_and_delete key key' token token' now until r.locks held h ne
release_lock-Held key key' token token' now until unanswered r held h ne =
    lookup-compare_and_delete key key' token token' now until r.locks held h ne

step :
    (key token : String) (until : ℕ) (op : LockOp) (r : Redis)
    → Held key token until r
    → time_of op < until
    → IsOther token op
    → Held key token until (after op r) × ((about key op ≡ false) ⊎ (granted op r ≡ none))
step key token until (release key' token' d now) r held h other =
    (release_lock-Held key key' token token' now until d r held h other, inr refl)
step key token until (acquire key' token' ttl d now) r held h other =
    elim (Bool-cases (str_eq key' key)) [
      | inl same ↦
          let e : key' ≡ key = (eq_iff key' key).0 same in
          let q = acquire_lock_taken key token token' ttl now until d r held h in
          rw e (
            ap (λ (a : Option String × Redis). lookup key a.1.locks) q ∙ held,
            inr (ap (λ (a : Option String × Redis). a.0) q),
          )
      | inr ne ↦ (
        acquire_lock_elsewhere key key' token token' ttl now until d r held
            (ground (arith, eq_iff key key', eq_iff key' key)),
        inl ne,
      )
    ]

-- The holder keeps the lock: while it has not expired, and whatever other tokens acquire or
-- release in the meantime, with commands lost or unanswered, nobody else is granted the lock, and
-- it still stands with the holder's token and expiry.
lock_exclusive :
    (key token : String) (until : ℕ) (ops : List LockOp) (r : Redis)
    → lookup key r.locks ≡ some (token, until)
    → All (λ op. (time_of op < until) × IsOther token op) ops
    → NoGrant key ops r × (lookup key (run_ops ops r).locks ≡ some (token, until))
lock_exclusive key token until [] r held others = (tt, held)
lock_exclusive key token until (op ∷ ops) r held others =
    let (held', refused) = step key token until op r held others.0.0 others.0.1 in
    let rest = lock_exclusive key token until ops (after op r) held' others.1 in
    ((refused, rest.0), rest.1)

acquire_lock-Held :
    (key token : String) (ttl now : ℕ) (d : Delivery) (r : Redis)
    → (acquire_lock key token ttl d now r).0 ≡ some token
    → Held key token (now + seconds (ceil_seconds ttl)) (acquire_lock key token ttl d now r).1
unfolding acquire_lock set_nx
acquire_lock-Held key token ttl now answered r granted =
    elim (Bool-cases (is_none (live now (lookup key r.locks)))) [
      | inl free ↦ rw free (lookup-insert key key _ r.locks ∙ rw (eq_refl key) refl)
      | inr taken ↦ absurd (ground arith)
    ]
acquire_lock-Held key token ttl now lost r granted = absurd (ground arith)
acquire_lock-Held key token ttl now unanswered r granted = absurd (ground arith)

-- From a granted lock on, for the whole requested time in milliseconds, whatever other tokens
-- acquire or release in the meantime, with commands lost or unanswered, nobody else is granted the
-- lock of the key, and it still stands with the token it was granted to.
pub acquire_lock_exclusive :
    (key token : String) (ttl_ms now : ℕ) (d : Delivery) (ops : List LockOp) (r : Redis)
    → (acquire_lock key token ttl_ms d now r).0 ≡ some token
    → All (λ op. (time_of op < now + ttl_ms * 1000) × IsOther token op) ops
    → let r' = (acquire_lock key token ttl_ms d now r).1 in
      NoGrant key ops r'
      × (lookup key (run_ops ops r').locks ≡ some (token, now + seconds (ceil_seconds ttl_ms)))
acquire_lock_exclusive key token ttl_ms now d ops r granted others =
    lock_exclusive key token (now + seconds (ceil_seconds ttl_ms)) ops
      (acquire_lock key token ttl_ms d now r).1 (acquire_lock-Held key token ttl_ms now d r granted)
      (All-map (λ op. (time_of op < now + ttl_ms * 1000) × IsOther token op) _ ops
        (λ op h. (omega arith, h.1)) others)
