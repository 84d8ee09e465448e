-- ===== src/Pagination.antt =====
-- backend/src/lib/cursorPagination.ts: pages of a list behind opaque cursors. The text of a cursor
-- (JSON in base64url) is a parameter, and so is the query of the database. A limit that a client
-- sends is a fraction, since the code rounds it; the column that a list is sorted by is left out of
-- the cursor, as the code leaves it out.
pub mod Walk
use text.Mathlib.Text.{◌==◌ as str_eq}
use elite_work.Base.{
  ℕ, zero, suc, ◌+◌, ◌/◌, ◌≡◌, ◌≢◌, String, Bool, true, false, Option, none, some, List, [], ◌∷◌,
  ◌++◌, min, max,
}
use elite_work.Base.Tests.{ltb, ◌==◌, if◌then◌else◌, get_or_else}
use elite_work.Base.Lists.{length, take, last}
use elite_work.Base.Outcome.{Outcome, ok, throw, ◌>>=◌}

pub data CursorError : Type 0 where
  invalid_cursor : CursorError

-- The text of a cursor, and what its decoding is relied on for.
pub record Codec : Type 0 where
  pub encode : (id : ℕ) → String
  pub decode : String → Option ℕ
  pub decode-encode : (id : ℕ) → decode (encode id) ≡ some id
  pub encode_nonempty : (id : ℕ) → str_eq (encode id) "" ≡ false

abbrev pub default_cursor_limit : ℕ
default_cursor_limit = 20

abbrev pub max_cursor_limit : ℕ
max_cursor_limit = 100

-- What `Number(rawLimit)` may be: not finite or not positive, or a positive fraction
-- `numerator / (denominator_less_one + 1)`.
pub data RawLimit : Type 0 where
  unusable : RawLimit
  fraction : (numerator denominator_less_one : ℕ) → RawLimit

unfoldable pub normalize_cursor_limit : RawLimit → ℕ
normalize_cursor_limit unusable = default_cursor_limit
normalize_cursor_limit (fraction n d) =
    if n == 0 then default_cursor_limit else min (n / suc d) max_cursor_limit

pub record CursorPage (T : Type 0) : Type 0 where
  pub items : List T
  pub next_cursor : Option String
  pub has_next_page : Bool
  pub limit : ℕ

-- `totalPages`, with `Math.ceil` of a quotient; a limit of 0 divides to Infinity, here `none`.
unfoldable pub total_pages : (total limit : ℕ) → Option ℕ
total_pages total zero = none
total_pages total (suc l) = some (max 1 ((total + l) / suc l))

-- `...(decoded ? { cursor: { id: decoded.id }, skip: 1 } : {})`
abbrev pub skip_of : Option ℕ → ℕ
skip_of none = 0
skip_of (some id) = 1

module _ (codec : Codec) where
  unfoldable pub decode_cursor : Option String → Outcome CursorError (Option ℕ)
  decode_cursor none = ok none
  decode_cursor (some c) =
      if str_eq c ""
      then ok none
      else elim (codec.decode c) [ none ↦ throw invalid_cursor | some id ↦ ok (some id) ]

  module _ {T : Type 0} (id_of : T → ℕ) where
    -- `hasNextPage && last ? encodeCursor({ id: last.id }) : null`
    abbrev pub next_of : Bool → Option T → Option String
    next_of false row = none
    next_of true none = none
    next_of true (some row) = some (codec.encode (id_of row))

    -- The page out of the rows that the query gave.
    unfoldable pub page_of : (limit : ℕ) → List T → CursorPage T
    page_of limit items =
        let has_next = ltb limit (length items) in
        let page = if has_next then take limit items else items in
        record {
          items = page;
          next_cursor = next_of has_next (last page);
          has_next_page = has_next;
          limit = limit;
        }

    -- The query of the database, with its `take`, its `cursor` and its `skip`.
    module _ (find_many : (take : ℕ) (cursor : Option ℕ) (skip : ℕ) → List T) where
      unfoldable pub paginate_with_cursor :
          (cursor : Option String) → RawLimit → Outcome CursorError (CursorPage T)
      unfolding decode_cursor page_of normalize_cursor_limit
      paginate_with_cursor cursor raw = do
        decoded ← decode_cursor cursor
        let limit = normalize_cursor_limit raw
        ok (page_of limit (find_many (limit + 1) decoded (skip_of decoded)))
