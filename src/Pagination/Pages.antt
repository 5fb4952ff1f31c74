-- ===== src/Pagination/Pages.antt =====
-- What a client sees that follows the cursors of src/common/pagination.ts.
use lotus_build_server.Base.{
  ℕ, zero, suc, ◌+◌, ◌≤◌, ◌<◌, String, ◌≡◌, refl, sym, ap, ◌∙◌, true, false, Option, none, some,
  List, [], ◌∷◌, ◌++◌, length, take, drop, get_last?, length-append, ltb, arith, inl, inr,
}
use lotus_build_server.Base.Text.{is_empty}
use lotus_build_server.Base.{Bool-cases, All}
use mathlib.Core.Path.{subst}
use mathlib.Core.Option
use mathlib.Core.List.{append_assoc}
use lotus_build_server.World.Data.{PaginationQuery}
use lotus_build_server.World.Calls.{PageQuery, SortField, Direction}
use lotus_build_server.Pagination.{Page, build_page, page_query}

-- What `findMany` documents for queries in this order, with a cursor that is unique, where `rows` are the
-- rows in this order: they are given from the row of the cursor on, where there is one, less those
-- skipped, and at most as many as are taken.
pub record Selects {ℓ} {T : Type ℓ} (id : T → String) (order_by : List (SortField × Direction))
    (rows : List T) (find_many : PageQuery → List T) : Type ℓ where
  pub from_start :
      (n skip : ℕ)
      → find_many (record { order_by = order_by; take = n; cursor = none; skip = skip })
        ≡ take n (drop skip rows)
  pub from_cursor :
      (n skip : ℕ) (before : List T) (x : T) (behind : List T)
      → rows ≡ before ++ x ∷ behind
      → find_many (record { order_by = order_by; take = n; cursor = some (id x); skip = skip })
        ≡ take n (drop skip (x ∷ behind))

module _ {ℓ} {T : Type ℓ} where
  take_all : (n : ℕ) (xs : List T) → length xs ≤ n → take n xs ≡ xs
  take_all zero [] p = refl
  take_all (suc n) [] p = refl
  take_all zero (x ∷ xs) p = absurd (omega (arith, p))
  take_all (suc n) (x ∷ xs) p = ap (λ ys. x ∷ ys) (take_all n xs (omega (arith, p)))

  get_last?-append : (xs : List T) (x : T) → get_last? (xs ++ x ∷ []) ≡ some x
  get_last?-append [] x = refl
  get_last?-append (y ∷ []) x = refl
  get_last?-append (y ∷ (z ∷ zs)) x = get_last?-append (z ∷ zs) x

  -- A list of more than `k` items is its first `k`, one more, and the rest.
  split_at :
      (k : ℕ) (zs : List T)
      → k < length zs
      → (before : List T) × (x : T) × (rest : List T) × (zs ≡ before ++ x ∷ rest)
        × (length before ≡ k)
  split_at k [] p = absurd (omega (arith, p))
  split_at zero (z ∷ zs) p = ([], z, zs, refl, refl)
  split_at (suc k) (z ∷ zs) p =
      let (before, x, rest, e, l) = split_at k zs (omega (arith, p)) in
      (z ∷ before, x, rest, ap (λ ys. z ∷ ys) e, ap (λ n. suc n) l)

  take_head :
      (before : List T) (x : T) (rest : List T)
      → take (suc (length before)) (before ++ x ∷ rest) ≡ before ++ x ∷ []
  take_head [] x rest = refl
  take_head (y ∷ before) x rest = ap (λ ys. y ∷ ys) (take_head before x rest)

  append_tail :
      (before : List T) (x : T) (rest : List T) → (before ++ x ∷ []) ++ rest ≡ before ++ x ∷ rest
  append_tail [] x rest = refl
  append_tail (y ∷ before) x rest = ap (λ ys. y ∷ ys) (append_tail before x rest)

  take-take : (n : ℕ) (xs : List T) → take n (take (suc n) xs) ≡ take n xs
  take-take zero xs = refl
  take-take (suc n) [] = refl
  take-take (suc n) (x ∷ xs) = ap (λ ys. x ∷ ys) (take-take n xs)

  length-take : (n : ℕ) (xs : List T) → n < length xs → length (take (suc n) xs) ≡ suc n
  length-take n [] p = absurd (omega (arith, p))
  length-take zero (x ∷ xs) p = refl
  length-take (suc n) (x ∷ xs) p = ap (λ m. suc m) (length-take n xs (omega (arith, p)))

module _ {ℓ} {T : Type ℓ} (id : T → String) where
  build_page_last :
      (limit : ℕ) (zs : List T)
      → length zs ≤ limit
      → build_page id (take (suc limit) zs) limit ≡ record { items = zs; next_cursor = none }
  unfolding build_page
  build_page_last limit zs p = rw (take_all (suc limit) zs (omega (arith, p))) (ground (arith, p))

  ltb-suc : (n : ℕ) → ltb n (suc n) ≡ true
  ltb-suc n = ground arith

  build_page_more :
      (before : List T) (x : T) (rest : List T)
      → 0 < length rest
      → build_page id (take (suc (suc (length before))) (before ++ x ∷ rest)) (suc (length before))
        ≡ record { items = before ++ x ∷ []; next_cursor = some (id x) }
  unfolding build_page
  build_page_more before x rest p =
      let longer : suc (length before) < length (before ++ x ∷ rest) =
        omega (arith, length-append before (x ∷ rest), p) in
      rw (length-take (suc (length before)) (before ++ x ∷ rest) longer) (
        rw (take-take (suc (length before)) (before ++ x ∷ rest)) (
          rw (take_head before x rest)
            (rw (ltb-suc (suc (length before))) (rw (get_last?-append before x) refl))))

-- The page's items, with those that its cursor leads to.
abbrev gather {ℓ} :
    {T : Type ℓ} → List T → Option String → (String → Option (List T)) → Option (List T)
gather items none further = some items
gather items (some next) further = Option.map (λ rest. items ++ rest) (further next)

-- The items that a client gets who asks for the first page and then follows the cursors, with at most
-- as many requests as the number says; `none` where these do not reach the last page.
unfoldable pub follow {ℓ} :
    {T : Type ℓ}
    → (T → String)
    → (PageQuery → List T)
    → List (SortField × Direction)
    → ℕ
    → ℕ
    → Option String
    → Option (List T)
follow id find_many order_by limit zero cursor = none
follow id find_many order_by limit (suc requests) cursor =
    let query : PaginationQuery = record { limit = some limit; cursor = cursor } in
    let page = build_page id (find_many (page_query order_by query)) limit in
    gather page.items page.next_cursor
      (λ next. follow id find_many order_by limit requests (some next))

module _ {ℓ} {T : Type ℓ} (id : T → String) (rows : List T) (find_many : PageQuery → List T) where
  All-middle :
      (P : T → Type 0) (before : List T) (x : T) (rest : List T) → All P (before ++ x ∷ rest) → P x
  All-middle P [] x rest (p, ps) = p
  All-middle P (y ∷ before) x rest (p, ps) = All-middle P before x rest ps

  -- The request at `cursor` asks for the rows `zs`.
  abbrev Asks : List (SortField × Direction) → ℕ → Option String → List T → Type ℓ
  Asks order_by limit cursor zs =
      find_many (page_query order_by (record { limit = some limit; cursor = cursor }))
      ≡ take (suc limit) zs

  plus_one : (n : ℕ) → n + 1 ≡ suc n
  plus_one n = omega arith

  Asks-first :
      (order_by : List (SortField × Direction)) (limit : ℕ)
      → Selects id order_by rows find_many
      → Asks order_by limit none rows
  unfolding page_query
  Asks-first order_by limit selects = rw (plus_one limit) (selects.from_start (suc limit) 0)

  Asks-next :
      (order_by : List (SortField × Direction)) (limit : ℕ) (before : List T) (x : T)
      (rest : List T)
      → Selects id order_by rows find_many
      → All (λ x. is_empty (id x) ≡ false) rows
      → rows ≡ before ++ x ∷ rest
      → Asks order_by limit (some (id x)) rest
  unfolding page_query
  Asks-next order_by limit before x rest selects full e =
      rw
        (All-middle _ before x rest
          (subst (λ (xs : List T). All (λ y. is_empty (id y) ≡ false) xs) e full))
        (rw (plus_one limit) (selects.from_cursor (suc limit) 1 before x rest e))

module _ {ℓ} {T : Type ℓ} (id : T → String) (rows : List T) (find_many : PageQuery → List T)
    (order_by : List (SortField × Direction)) (selects : Selects id order_by rows find_many)
    (full : All (λ x. is_empty (id x) ≡ false) rows) (k : ℕ) where
  follow_by :
      (requests : ℕ) (cursor : Option String) (zs : List T) (page : Page T)
      → Asks id rows find_many order_by (suc k) cursor zs
      → build_page id (take (suc (suc k)) zs) (suc k) ≡ page
      → follow id find_many order_by (suc k) (suc requests) cursor
        ≡ gather page.items page.next_cursor
            (λ next. follow id find_many order_by (suc k) requests (some next))
  unfolding follow
  follow_by requests cursor zs page asks found =
      let further = λ (next : String). follow id find_many order_by (suc k) requests (some next) in
      ap (λ p. gather p.items p.next_cursor further)
        (ap (λ selected. build_page id selected (suc k)) asks ∙ found)

  follow_more :
      (requests : ℕ) (zs : List T) (cursor : Option String) (before : List T) (x : T)
      (rest : List T)
      → zs ≡ before ++ x ∷ rest
      → length before ≡ k
      → 0 < length rest
      → Asks id rows find_many order_by (suc k) cursor zs
      → follow id find_many order_by (suc k) requests (some (id x)) ≡ some rest
      → follow id find_many order_by (suc k) (suc requests) cursor ≡ some zs
  unfolding follow
  follow_more requests zs cursor before x rest e l p asks further =
      let page : build_page id (take (suc (suc k)) zs) (suc k)
          ≡ record { items = before ++ x ∷ []; next_cursor = some (id x) } =
        rw e (rw (← l) (build_page_more id before x rest p)) in
      follow_by requests cursor zs _ asks page
      ∙ rw further (ap some (append_tail before x rest ∙ sym e))

  counted_parts :
      (zs before : List T) (x : T) (rest : List T)
      → zs ≡ before ++ x ∷ rest
      → length zs ≡ length before + suc (length rest)
  counted_parts zs before x rest e = rw e (length-append before (x ∷ rest))

  follow_from :
      (requests : ℕ) (seen zs : List T) (cursor : Option String)
      → rows ≡ seen ++ zs
      → length zs ≤ requests
      → Asks id rows find_many order_by (suc k) cursor zs
      → follow id find_many order_by (suc k) (suc requests) cursor ≡ some zs
  follow_from zero seen zs cursor e enough asks =
      follow_by zero cursor zs _ asks (build_page_last id (suc k) zs (omega (arith, enough)))
  follow_from (suc requests) seen zs cursor e enough asks =
      elim (Bool-cases (ltb (suc k) (length zs))) [
        | inr short ↦
            follow_by (suc requests) cursor zs _ asks
              (build_page_last id (suc k) zs (ground (arith, short)))
        | inl long ↦
            let (before, x, rest, e', l) = split_at k zs (ground (arith, long)) in
            let counted = counted_parts zs before x rest e' in
            let found : rows ≡ (seen ++ before) ++ x ∷ rest =
              e ∙ ap (λ ys. seen ++ ys) e' ∙ sym (append_assoc seen before (x ∷ rest)) in
            follow_more (suc requests) zs cursor before x rest e' l
              (ground (arith, long, counted, l)) asks
              (follow_from requests ((seen ++ before) ++ x ∷ []) rest (some (id x))
                (found ∙ sym (append_tail (seen ++ before) x rest))
                (ground (arith, counted, enough))
                (Asks-next id rows find_many order_by (suc k) (seen ++ before) x rest selects full
                  found))
      ]

  -- Where the database answers queries in this order as it documents, the rows' identifiers are not empty
  -- and the limit is not zero, a client that follows the cursors gets all rows, each once and in this
  -- order, after at most one request more than there are rows.
  pub follow_complete : follow id find_many order_by (suc k) (suc (length rows)) none ≡ some rows
  follow_complete =
      follow_from (length rows) [] rows none refl (omega arith)
        (Asks-first id rows find_many order_by (suc k) selects)
