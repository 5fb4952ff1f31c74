-- ===== src/Pagination.antt =====
-- src/common/pagination.ts, and the part of a query that the services build from a request for a page.
pub mod Pages
use lotus_build_server.Base.{
  ℕ, ◌+◌, String, Option, none, some, List, length, take, get_last?, ltb, get_or, is_some,
  if◌then◌else◌,
}
use lotus_build_server.Base.Text.{is_empty}
use lotus_build_server.World.Data.{PaginationQuery}
use lotus_build_server.World.Calls.{PageQuery, SortField, Direction}
use mathlib.Core.Option

abbrev pub default_page_size : ℕ
default_page_size = 50

pub record Page {ℓ} (T : Type ℓ) : Type ℓ where
  pub items : List T
  pub next_cursor : Option String

module _ {ℓ} {T : Type ℓ} (id : T → String) where
  unfoldable pub build_page : List T → ℕ → Page T
  build_page rows limit =
      let has_more = ltb limit (length rows) in
      let items = if has_more then take limit rows else rows in
      record {
        items = items;
        next_cursor = if has_more then Option.map id (get_last? items) else none;
      }

-- `pagination.limit ?? DEFAULT_PAGE_SIZE`
abbrev pub limit_of : PaginationQuery → ℕ
limit_of pagination = get_or pagination.limit default_page_size

-- `pagination.cursor ? … : {}`: the empty text counts as no cursor
abbrev pub cursor_of : Option String → Option String
cursor_of none = none
cursor_of (some cursor) = if is_empty cursor then none else some cursor

-- what the services pass to `findMany` beside the filter
unfoldable pub page_query : List (SortField × Direction) → PaginationQuery → PageQuery
page_query order_by pagination = record {
  order_by = order_by;
  take = limit_of pagination + 1;
  cursor = cursor_of pagination.cursor;
  skip = if is_some (cursor_of pagination.cursor) then 1 else 0;
}
