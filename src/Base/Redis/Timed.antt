-- ===== src/Base/Redis/Timed.antt =====
-- A Redis that behaves as required: each key with its value and the second that it expires in.
use elite_work.Base.{
  ℕ, suc, ◌+◌, ◌≡◌, ◌≢◌, ◌↔◌, refl, ap, ◌∙◌, Bool, true, false, Option, none, some, arith, inl, inr,
}
use elite_work.Base.Tests.{ltb, if◌then◌else◌, Bool-cases}
use elite_work.Base.Redis.{Redis, Value, number_value, number_or_zero}

module _ (Key : Type 0) (same : Key → Key → Bool)
    (same_iff : (j k : Key) → (same j k ≡ true) ↔ (j ≡ k)) where
  -- The expiry of a value is absent where it stays for good.
  abbrev pub Entries : Type 0
  Entries = Key → Option (Value × Option ℕ)

  abbrev pub live : (now : ℕ) → Option (Value × Option ℕ) → Option Value
  live now none = none
  live now (some (v, none)) = some v
  live now (some (v, some expiry)) = if ltb now expiry then some v else none

  abbrev pub expiry_of : Option (Value × Option ℕ) → Option ℕ
  expiry_of none = none
  expiry_of (some (v, expiry)) = expiry

  abbrev pub put : Key → Option (Value × Option ℕ) → Entries → Entries
  put k entry s = λ j. if same j k then entry else s j

  abbrev pub set_unless_live : Key → Value → (ttl now : ℕ) → Entries → Option Value → Entries × Bool
  set_unless_live k v ttl now s none = (put k (some (v, some (now + ttl))) s, true)
  set_unless_live k v ttl now s (some w) = (s, false)

  abbrev pub raised : Key → Entries → Option Value → Entries × ℕ
  raised k s none = (put k (some (number_value 1, none)) s, 1)
  raised k s (some v) = (
    put k (some (number_value (suc (number_or_zero (some v))), expiry_of (s k))) s,
    suc (number_or_zero (some v)),
  )

  pub live-put :
      (k : Key) (entry : Option (Value × Option ℕ)) (t : ℕ) (s : Entries)
      → live t (put k entry s k) ≡ live t entry
  live-put k entry t s = rw ((same_iff k k).1 refl) refl

  pub live-put_other :
      (k j : Key) (entry : Option (Value × Option ℕ)) (t : ℕ) (s : Entries)
      → j ≢ k
      → live t (put k entry s j) ≡ live t (s j)
  live-put_other k j entry t s ne = elim (Bool-cases (same j k)) [
    | inl hit ↦ absurd (ne ((same_iff j k).0 hit))
    | inr miss ↦ rw miss refl
  ]

  pub incr_live :
      (k : Key) (now n : ℕ) (s : Entries)
      → live now (s k) ≡ some (number_value n)
      → (raised k s (live now (s k))
          ≡ (put k (some (number_value (suc n), expiry_of (s k))) s, suc n))
        × (live now (some (number_value (suc n), expiry_of (s k))) ≡ some (number_value (suc n)))
  incr_live k now n s h = (rw h refl, still (s k) h)
    where
      still :
          (entry : Option (Value × Option ℕ))
          → live now entry ≡ some (number_value n)
          → live now (some (number_value (suc n), expiry_of entry)) ≡ some (number_value (suc n))
      still none h = cc
      still (some (v, none)) h = refl
      still (some (v, some expiry)) h = ground (arith, h)

  pub raised_other :
      (k j : Key) (t : ℕ) (s : Entries) (o : Option Value)
      → j ≢ k
      → live t ((raised k s o).0 j) ≡ live t (s j)
  raised_other k j t s none ne = live-put_other k j _ t s ne
  raised_other k j t s (some v) ne = live-put_other k j _ t s ne

  abbrev pub timed : Redis Key
  timed = record {
    State = Entries;
    get = λ s now k. live now (s k);
    set_ex = λ k v ttl now s. put k (some (v, some (now + ttl))) s;
    set_nx_ex = λ k v ttl now s. set_unless_live k v ttl now s (live now (s k));
    del = λ k s. put k none s;
    incr = λ k now s. raised k s (live now (s k));
    get-set_ex = λ k v ttl now t s. live-put k (some (v, some (now + ttl))) t s;
    get-set_ex_other =
        λ k j v ttl now t s ne. live-put_other k j (some (v, some (now + ttl))) t s ne;
    set_nx_ex_free = λ k v ttl now s h. ap (set_unless_live k v ttl now s) h;
    set_nx_ex_taken = λ k v w ttl now s h. ap (set_unless_live k v ttl now s) h;
    get-del = λ k t s. live-put k none t s;
    get-del_other = λ k j t s ne. live-put_other k j none t s ne;
    incr_absent = λ k now s h. rw h (refl, live-put k (some (number_value 1, none)) now s);
    incr_number = λ k now n s h.
        let (made, stays) = incr_live k now n s h in
        (
          ap (λ x. x.1) made,
          ap (λ x. live now (x.0 k)) made
              ∙ live-put k (some (number_value (suc n), expiry_of (s k))) now s
              ∙ stays,
        );
    get-incr_other = λ k j now t s ne. raised_other k j t s (live now (s k)) ne;
  }
