-- ===== src/Pagination/Walk.antt =====
-- A client that follows the cursors.
use elite_work.Base.{
  ℕ, zero, suc, ◌+◌, ◌≤◌, ◌<◌, ◌≡◌, ◌≢◌, inl, inr, refl, sym, ap, ◌∙◌, subst, String, true, false,
  Option, none, some, List, [], ◌∷◌, ◌++◌, append_assoc, arith,
}
use elite_work.Base.Tests.{ltb, ◌==◌, ==_iff, if◌then◌else◌, Bool-cases}
use elite_work.Base.Lists.{length, take, last, take_all, length-take, take-take, take-split}
use elite_work.Base.Outcome.{Outcome, ok, throw}
use elite_work.Pagination.{
  CursorError, Codec, RawLimit, normalize_cursor_limit, CursorPage, decode_cursor, page_of, skip_of,
  paginate_with_cursor,
}

module _ {T : Type 0} (id_of : T → ℕ) where
  -- The rows from the one with an identifier on.
  abbrev pub starting : ℕ → List T → List T
  starting c [] = []
  starting c (r ∷ rows) = if id_of r == c then r ∷ rows else starting c rows

  abbrev pub at_cursor : Option ℕ → List T → List T
  at_cursor none rows = rows
  at_cursor (some c) rows = starting c rows

  abbrev pub drop : ℕ → List T → List T
  drop zero rows = rows
  drop (suc n) [] = []
  drop (suc n) (r ∷ rows) = drop n rows

  -- The rows behind the one with an identifier.
  abbrev pub behind : ℕ → List T → List T
  behind c [] = []
  behind c (r ∷ rows) = if id_of r == c then rows else behind c rows

  abbrev pub from : Option ℕ → List T → List T
  from none rows = rows
  from (some c) rows = behind c rows

  abbrev pub IsAbsent : ℕ → List T → Type 0
  IsAbsent c [] = Unit
  IsAbsent c (r ∷ rows) = (id_of r ≢ c) × IsAbsent c rows

  -- No two rows have the same identifier.
  abbrev pub IsDistinct : List T → Type 0
  IsDistinct [] = Unit
  IsDistinct (r ∷ rows) = IsAbsent (id_of r) rows × IsDistinct rows

  -- Skipping the cursor's row leaves those behind it.
  drop-skip : (o : Option ℕ) (rows : List T) → drop (skip_of o) (at_cursor o rows) ≡ from o rows
  drop-skip none rows = refl
  drop-skip (some c) [] = refl
  drop-skip (some c) (r ∷ rows) = elim (Bool-cases (id_of r == c)) [
    | inl hit ↦ rw hit refl
    | inr miss ↦ rw miss (drop-skip (some c) rows)
  ]

  absent-middle :
      (c : ℕ) (front : List T) (x : T) (back : List T)
      → IsAbsent c (front ++ x ∷ back)
      → id_of x ≢ c
  absent-middle c [] x back h = h.0
  absent-middle c (r ∷ front) x back h = absent-middle c front x back h.1

  behind-middle :
      (front : List T) (x : T) (back : List T)
      → IsDistinct (front ++ x ∷ back)
      → behind (id_of x) (front ++ x ∷ back) ≡ back
  behind-middle [] x back h = rw ((==_iff (id_of x) (id_of x)).1 refl) refl
  behind-middle (r ∷ front) x back h = elim (Bool-cases (id_of r == id_of x)) [
    | inl hit ↦
        absurd (absent-middle (id_of r) front x back h.0 (sym ((==_iff (id_of r) (id_of x)).0 hit)))
    | inr miss ↦ rw miss (behind-middle front x back h.1)
  ]

  module _ (codec : Codec) (rows : List T) where
    -- What the query is documented to give: of the rows in their order, from the cursor's row on and
    -- with that row, some are skipped and some taken.
    abbrev pub query : (n : ℕ) (cursor : Option ℕ) (skip : ℕ) → List T
    query n cursor skip = take n (drop skip (at_cursor cursor rows))

    abbrev pub page : Option String → RawLimit → Outcome CursorError (CursorPage T)
    page = paginate_with_cursor codec id_of query

    -- The items of the pages that a client sees who follows the cursors, one unit of fuel to a page.
    abbrev pub walk : (fuel : ℕ) → RawLimit → Option String → Option (List T)
    walk zero raw cursor = none
    walk (suc fuel) raw cursor = elim (page cursor raw) [
      | throw e ↦ none
      | ok p ↦ elim p.next_cursor [
        | none ↦ some p.items
        | some c ↦ elim (walk fuel raw (some c)) [
          | none ↦ none
          | some more ↦ some (p.items ++ more)
        ]
      ]
    ]

    page_at :
        (cursor : Option String) (o : Option ℕ) (raw : RawLimit) (back : List T)
        → decode_cursor codec cursor ≡ ok o
        → from o rows ≡ back
        → page cursor raw
          ≡ ok (
              page_of codec id_of
                (normalize_cursor_limit raw)
                (take (normalize_cursor_limit raw + 1) back))
    unfolding paginate_with_cursor
    page_at cursor o raw back decodes rest = rw decodes (
        ap
          (λ xs. ok (
            page_of codec id_of (normalize_cursor_limit raw)
              (take (normalize_cursor_limit raw + 1) xs)))
          (drop-skip o rows ∙ rest))

    shown :
        (cursor : Option String) (o : Option ℕ) (raw : RawLimit) (back : List T) (l : ℕ)
        → normalize_cursor_limit raw ≡ suc l
        → decode_cursor codec cursor ≡ ok o
        → from o rows ≡ back
        → page cursor raw ≡ ok (page_of codec id_of (suc l) (take (suc (suc l)) back))
    shown cursor o raw back l size decodes rest =
        let one_more : suc l + 1 ≡ suc (suc l) = omega arith in
        page_at cursor o raw back decodes rest
        ∙ ap (λ n. ok (page_of codec id_of n (take (n + 1) back))) size
        ∙ ap (λ n. ok (page_of codec id_of (suc l) (take n back))) one_more

    decode_own : (id : ℕ) → decode_cursor codec (some (codec.encode id)) ≡ ok (some id)
    unfolding decode_cursor
    decode_own id = rw (codec.encode_nonempty id, codec.decode-encode id) refl

    last_page :
        (limit : ℕ) (xs : List T)
        → length xs ≤ limit
        → page_of codec id_of limit (take (suc limit) xs)
          ≡ record { items = xs; next_cursor = none; has_next_page = false; limit = limit }
    unfolding page_of
    last_page limit xs fits =
        let all : take (suc limit) xs ≡ xs = take_all (suc limit) xs (omega (arith, fits)) in
        let no_more : ltb limit (length xs) ≡ false = ground (arith, fits) in rw (all, no_more) refl

    full_page :
        (limit : ℕ) (xs : List T) (y : T)
        → limit < length xs
        → last (take limit xs) ≡ some y
        → page_of codec id_of limit (take (suc limit) xs) ≡ record {
          items = take limit xs;
          next_cursor = some (codec.encode (id_of y));
          has_next_page = true;
          limit = limit;
        }
    unfolding page_of
    full_page limit xs y more at_end =
        let measured = length-take (suc limit) xs (omega (arith, more)) in
        let goes_on : ltb limit (length (take (suc limit) xs)) ≡ true = ground (arith, measured) in
        rw (goes_on, take-take limit xs, at_end) refl

    walk-last :
        (fuel : ℕ) (raw : RawLimit) (cursor : Option String) (p : CursorPage T)
        → page cursor raw ≡ ok p
        → p.next_cursor ≡ none
        → walk (suc fuel) raw cursor ≡ some p.items
    walk-last fuel raw cursor p shows ends = rw (shows, walk, ends) refl

    walk-more :
        (fuel : ℕ) (raw : RawLimit) (cursor : Option String) (p : CursorPage T) (c : String)
        (more : List T)
        → page cursor raw ≡ ok p
        → p.next_cursor ≡ some c
        → walk fuel raw (some c) ≡ some more
        → walk (suc fuel) raw cursor ≡ some (p.items ++ more)
    walk-more fuel raw cursor p c more shows goes_on others = rw (shows, walk, goes_on, others) refl

    walk-from :
        (fuel l : ℕ) (raw : RawLimit) (cursor : Option String) (o : Option ℕ) (front back : List T)
        → normalize_cursor_limit raw ≡ suc l
        → IsDistinct rows
        → rows ≡ front ++ back
        → decode_cursor codec cursor ≡ ok o
        → from o rows ≡ back
        → length back < fuel
        → walk fuel raw cursor ≡ some back
    walk-from zero l raw cursor o front back size distinct whole decodes rest enough =
        absurd (omega (arith, enough))
    walk-from (suc fuel) l raw cursor o front back size distinct whole decodes rest enough =
        elim (Bool-cases (ltb (suc l) (length back))) [
          | inr fits ↦
              walk-last fuel raw cursor _
                (shown cursor o raw back l size decodes rest
                  ∙ ap ok (last_page (suc l) back (ground (arith, fits))))
                refl
          | inl more ↦
              let (init, y, later, taken, at_end, split, fewer) =
                take-split l back (ground (arith, more)) in
              let whole' : rows ≡ (front ++ init) ++ y ∷ later =
                whole ∙ ap (λ ys. front ++ ys) split ∙ sym (append_assoc front init (y ∷ later)) in
              let next : behind (id_of y) rows ≡ later =
                ap (behind (id_of y)) whole'
                ∙ behind-middle (front ++ init) y later (subst IsDistinct whole' distinct) in
              let others =
                walk-from fuel l raw (some (codec.encode (id_of y))) (some (id_of y))
                  ((front ++ init) ++ y ∷ []) later size distinct
                  (whole' ∙ sym (append_assoc (front ++ init) (y ∷ []) later))
                  (decode_own (id_of y)) next (omega (arith, fewer, enough)) in
              walk-more fuel raw cursor _ (codec.encode (id_of y)) later
                (shown cursor o raw back l size decodes rest
                  ∙ ap ok (full_page (suc l) back y (ground (arith, more)) at_end))
                refl others
              ∙ ap some
                  (ap (λ ys. ys ++ later) taken ∙ append_assoc init (y ∷ []) later ∙ sym split)
        ]

    -- A client that starts without a cursor, asks for a usable limit and follows the cursors sees each
    -- row of the list once, in the list's order, behind at most one page more than there are rows.
    pub walk_complete :
        (raw : RawLimit)
        → 1 ≤ normalize_cursor_limit raw
        → IsDistinct rows
        → walk (length rows + 1) raw none ≡ some rows
    unfolding decode_cursor
    walk_complete raw usable distinct = with_size (normalize_cursor_limit raw) refl usable
      where
        start : decode_cursor codec none ≡ ok none
        start = refl

        with_size :
            (n : ℕ)
            → normalize_cursor_limit raw ≡ n
            → 1 ≤ n
            → walk (length rows + 1) raw none ≡ some rows
        with_size zero e h = absurd (omega (arith, h))
        with_size (suc l) e h =
            walk-from (length rows + 1) l raw none none [] rows e distinct refl start refl
              (omega arith)
