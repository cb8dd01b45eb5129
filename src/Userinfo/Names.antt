-- ===== src/Userinfo/Names.antt =====
-- The loops of `user_uid` and `group_gid` of src/userinfo.c that look for a large enough buffer.
use cachefs.Prelude.{ℕ, zero, suc, ◌*◌, ◌^◌, ◌≤◌, ◌≡◌, ◌≢◌, ◌⊎◌, inl, inr, none, arith, Str}
use cachefs.Userinfo.{NameLookup, erange, looked_up, with_buffer, numeric_id, user_uid}

-- With a lookup that gives ERANGE or one result, and that result from a length on that the loop reaches.
pub with_buffer_lem :
    (fuel : ℕ) (call : ℕ → NameLookup) (need buflen : ℕ) (r : NameLookup)
    → ((n : ℕ) → (call n ≡ erange) ⊎ (call n ≡ r))
    → ((n : ℕ) → need ≤ n → call n ≡ r)
    → r ≢ erange
    → need ≤ buflen * 2 ^ fuel
    → with_buffer (suc fuel) call buflen ≡ looked_up r
unfolding with_buffer
with_buffer_lem zero call need buflen r either enough ne h =
    let now = enough buflen (ground arith) in ground arith
with_buffer_lem (suc fuel) call need buflen r either enough ne h = elim (either buflen) [
  | inl small ↦
      let room : need ≤ buflen * 2 * 2 ^ fuel = grind arith in
      rw (small, with_buffer) (with_buffer_lem fuel call need (buflen * 2) r either enough ne room)
  | inr good ↦ ground arith
]

-- The same of both functions at a name that is no number: with a buffer of fewer than 2 ^ 63 bytes the
-- entry is read.
pub user_uid-found :
    (getpwnam_r : Str → ℕ → NameLookup) (need : ℕ) (r : NameLookup) (name : Str)
    → numeric_id name ≡ none
    → ((n : ℕ) → (getpwnam_r name n ≡ erange) ⊎ (getpwnam_r name n ≡ r))
    → ((n : ℕ) → need ≤ n → getpwnam_r name n ≡ r)
    → r ≢ erange
    → need ≤ 2 ^ 63
    → user_uid getpwnam_r name ≡ looked_up r
unfolding user_uid
user_uid-found getpwnam_r need r name text either enough ne h =
    let loop = with_buffer_lem 53 (getpwnam_r name) need 1024 r either enough ne (omega arith) in
    ground arith
