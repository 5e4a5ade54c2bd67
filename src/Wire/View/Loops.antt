-- ===== src/Wire/View/Loops.antt =====
-- The loops of a view and of the decoder go through the same rows and routes.
use mimo26f_afd.Prelude.{
  ℕ, Bool, zero, suc, ◌+◌, ◌*◌, ◌%◌, ◌^◌, ltb, leb, ◌≡◌, refl, sym, ap, ◌∙◌, inl, inr, arith, true,
  false, Bool-cases, List, [], ◌∷◌, some, get_elem?, length, Result, ok, err, ◌>>=◌,
}
use mimo26f_afd.Wire.Naive.{WireNaive}
use mimo26f_afd.Wire.Error.{WireError, route_range_bad, route_row_mismatch}
use mimo26f_afd.Wire.Row.{
  RowDescriptor, RouteEntry, row_descriptor_from_wire, route_entry_from_wire, validate_rows,
  validate_routes, validate_rows_routes,
}
use mimo26f_afd.Wire.Header.{refuse_if}
use mimo26f_afd.Wire.Request.{read_rows, read_routes}
use mimo26f_afd.Wire.View.{RequestView, row_at, route_at, check_rows, check_routes}

-- What a chain of `?` that ends well went through.
pub bind_ok :
    {A B : Type 0} (r : Result WireError A) (f : A → Result WireError B) (b : B)
    → (r >>= f) ≡ ok b
    → (a : A) × (r ≡ ok a) × (f a ≡ ok b)
bind_ok (ok a) f b h = (a, refl, h)
bind_ok (err e) f b h = absurd (cc)

pub refuse_if_ok :
    (bad : Bool) (e : WireError) (u : Unit {0}) → refuse_if bad e ≡ ok u → bad ≡ false
refuse_if_ok true e u h = absurd (cc)
refuse_if_ok false e u h = refl

pub validate_rows_first :
    (i : ℕ) (row : RowDescriptor) (rows : List RowDescriptor) (routes : ℕ)
    → validate_rows i (row ∷ rows) routes ≡ ok tt
    → (ltb routes (row.route_offset + row.route_count) ≡ false)
      × (validate_rows (i + 1) rows routes ≡ ok tt)
unfolding validate_rows
validate_rows_first i row rows routes h =
    elim (Bool-cases (ltb routes (row.route_offset + row.route_count))) [
      | inl out ↦ absurd (cc)
      | inr inside ↦ (inside, rw inside at h)
    ]

-- The rows that a view's loop has gone through.
abbrev pub RowsRead : ℕ → ℕ → RequestView → Type 0
RowsRead left i v =
    (rows : List RowDescriptor) × (read_rows left i v.body v.naive ≡ ok rows)
    × (validate_rows i rows v.routes ≡ ok tt)
    × (length rows ≡ left)

pub check_rows-RowsRead :
    (left i : ℕ) (v : RequestView) → check_rows left i v ≡ ok tt → RowsRead left i v
unfolding check_rows row_at read_rows validate_rows
check_rows-RowsRead zero i v h = ([], refl, refl, refl)
check_rows-RowsRead (suc left) i v h =
    let (row, read, more) = bind_ok (row_at v i) _ tt h in
    let (u, fits, last) =
      bind_ok (refuse_if (ltb v.routes (row.route_offset + row.route_count)) (route_range_bad i)) _
        tt more in
    let (rows, reads, valid, count) = check_rows-RowsRead left (i + 1) v last in
    let inside =
      refuse_if_ok (ltb v.routes (row.route_offset + row.route_count)) (route_range_bad i) u fits in
    (row ∷ rows, rw (read, reads) refl, rw inside valid, ap suc count)

-- And back.
pub RowsRead-check_rows :
    (left i : ℕ) (v : RequestView) (rows : List RowDescriptor)
    → read_rows left i v.body v.naive ≡ ok rows
    → validate_rows i rows v.routes ≡ ok tt
    → check_rows left i v ≡ ok tt
unfolding check_rows row_at read_rows validate_rows
RowsRead-check_rows zero i v rows h k = refl
RowsRead-check_rows (suc left) i v rows h k =
    let (row, read, more) = bind_ok (row_descriptor_from_wire v.body (i * 40) v.naive) _ rows h in
    let (others, reads, made) = bind_ok (read_rows left (i + 1) v.body v.naive) _ rows more in
    let listed : validate_rows i (row ∷ others) v.routes ≡ ok tt = cc in
    let (inside, valid) = validate_rows_first i row others v.routes listed in
    rw (read, inside) (RowsRead-check_rows left (i + 1) v others reads valid)

pub validate_routes_first :
    (j : ℕ) (r : RouteEntry) (routes : List RouteEntry) (rows : ℕ)
    → validate_routes j (r ∷ routes) rows ≡ ok tt
    → (leb rows r.row_index ≡ false) × (validate_routes (j + 1) routes rows ≡ ok tt)
unfolding validate_routes
validate_routes_first j r routes rows h = elim (Bool-cases (leb rows r.row_index)) [
  | inl out ↦ absurd (cc)
  | inr inside ↦ (inside, rw inside at h)
]

-- The entries that a view's loop has gone through.
abbrev pub RoutesRead : ℕ → ℕ → RequestView → Type 0
RoutesRead left j v =
    (routes : List RouteEntry) × (read_routes left v.route_base j v.body v.naive ≡ ok routes)
    × (validate_routes j routes v.rows ≡ ok tt)
    × (length routes ≡ left)

pub check_routes-RoutesRead :
    (left j : ℕ) (v : RequestView) → check_routes left j v ≡ ok tt → RoutesRead left j v
unfolding check_routes route_at read_routes validate_routes
check_routes-RoutesRead zero j v h = ([], refl, refl, refl)
check_routes-RoutesRead (suc left) j v h =
    let (r, read, more) = bind_ok (route_at v j) _ tt h in
    let (u, fits, last) =
      bind_ok
        (refuse_if (leb v.rows r.row_index) (route_row_mismatch j r.row_index (v.rows % 2 ^ 32))) _
        tt more in
    let (routes, reads, valid, count) = check_routes-RoutesRead left (j + 1) v last in
    let inside =
      refuse_if_ok (leb v.rows r.row_index) (route_row_mismatch j r.row_index (v.rows % 2 ^ 32)) u
        fits in
    (r ∷ routes, rw (read, reads) refl, rw inside valid, ap suc count)

pub RoutesRead-check_routes :
    (left j : ℕ) (v : RequestView) (routes : List RouteEntry)
    → read_routes left v.route_base j v.body v.naive ≡ ok routes
    → validate_routes j routes v.rows ≡ ok tt
    → check_routes left j v ≡ ok tt
unfolding check_routes route_at read_routes
RoutesRead-check_routes zero j v routes h k = refl
RoutesRead-check_routes (suc left) j v routes h k =
    let (r, read, more) =
      bind_ok (route_entry_from_wire v.body (v.route_base + j * 12) v.naive) _ routes h in
    let (others, reads, made) =
      bind_ok (read_routes left v.route_base (j + 1) v.body v.naive) _ routes more in
    let listed : validate_routes j (r ∷ others) v.rows ≡ ok tt = cc in
    let (inside, valid) = validate_routes_first j r others v.rows listed in
    rw (read, inside) (RoutesRead-check_routes left (j + 1) v others reads valid)

-- A row that was read stands at its place.
pub read_rows-row_at :
    (left i k : ℕ) (v : RequestView) (rows : List RowDescriptor) (row : RowDescriptor)
    → read_rows left i v.body v.naive ≡ ok rows
    → get_elem? rows k ≡ some row
    → row_at v (i + k) ≡ ok row
unfolding read_rows row_at
read_rows-row_at zero i k v [] row h g = absurd (cc)
read_rows-row_at zero i k v (r ∷ rows) row h g = absurd (cc)
read_rows-row_at (suc left) i k v [] row h g = absurd (cc)
read_rows-row_at (suc left) i zero v (r ∷ rows) row h g =
    let (first, read, more) =
      bind_ok (row_descriptor_from_wire v.body (i * 40) v.naive) _ (r ∷ rows) h in
    let (others, reads, made) = bind_ok (read_rows left (i + 1) v.body v.naive) _ (r ∷ rows) more in
    let same : first ≡ row = cc in
    let here : (i + 0) * 40 ≡ i * 40 = omega arith in rw here (read ∙ ap ok same)
read_rows-row_at (suc left) i (suc k) v (r ∷ rows) row h g =
    let (first, read, more) =
      bind_ok (row_descriptor_from_wire v.body (i * 40) v.naive) _ (r ∷ rows) h in
    let (others, reads, made) = bind_ok (read_rows left (i + 1) v.body v.naive) _ (r ∷ rows) more in
    let same : others ≡ rows = cc in
    let here : i + 1 + k ≡ i + suc k = omega arith in
    rw (sym here) (read_rows-row_at left (i + 1) k v rows row (reads ∙ ap ok same) g)

pub read_routes-route_at :
    (left j k : ℕ) (v : RequestView) (routes : List RouteEntry) (r : RouteEntry)
    → read_routes left v.route_base j v.body v.naive ≡ ok routes
    → get_elem? routes k ≡ some r
    → route_at v (j + k) ≡ ok r
unfolding read_routes route_at
read_routes-route_at zero j k v [] r h g = absurd (cc)
read_routes-route_at zero j k v (x ∷ routes) r h g = absurd (cc)
read_routes-route_at (suc left) j k v [] r h g = absurd (cc)
read_routes-route_at (suc left) j zero v (x ∷ routes) r h g =
    let (first, read, more) =
      bind_ok (route_entry_from_wire v.body (v.route_base + j * 12) v.naive) _ (x ∷ routes) h in
    let (others, reads, made) =
      bind_ok (read_routes left v.route_base (j + 1) v.body v.naive) _ (x ∷ routes) more in
    let same : first ≡ r = cc in
    let here : v.route_base + (j + 0) * 12 ≡ v.route_base + j * 12 = omega arith in
    rw here (read ∙ ap ok same)
read_routes-route_at (suc left) j (suc k) v (x ∷ routes) r h g =
    let (first, read, more) =
      bind_ok (route_entry_from_wire v.body (v.route_base + j * 12) v.naive) _ (x ∷ routes) h in
    let (others, reads, made) =
      bind_ok (read_routes left v.route_base (j + 1) v.body v.naive) _ (x ∷ routes) more in
    let same : others ≡ routes = cc in
    let here : j + 1 + k ≡ j + suc k = omega arith in
    rw (sym here) (read_routes-route_at left (j + 1) k v routes r (reads ∙ ap ok same) g)

pub length-read_rows :
    (left i : ℕ) (body : List ℕ) (naive : WireNaive) (rows : List RowDescriptor)
    → read_rows left i body naive ≡ ok rows
    → length rows ≡ left
unfolding read_rows
length-read_rows zero i body naive [] h = refl
length-read_rows zero i body naive (r ∷ rows) h = absurd (cc)
length-read_rows (suc left) i body naive rows h =
    let (first, read, more) = bind_ok (row_descriptor_from_wire body (i * 40) naive) _ rows h in
    let (others, reads, made) = bind_ok (read_rows left (i + 1) body naive) _ rows more in
    let same : first ∷ others ≡ rows = cc in
    ap length (sym same) ∙ ap suc (length-read_rows left (i + 1) body naive others reads)

pub length-read_routes :
    (left base j : ℕ) (body : List ℕ) (naive : WireNaive) (routes : List RouteEntry)
    → read_routes left base j body naive ≡ ok routes
    → length routes ≡ left
unfolding read_routes
length-read_routes zero base j body naive [] h = refl
length-read_routes zero base j body naive (r ∷ routes) h = absurd (cc)
length-read_routes (suc left) base j body naive routes h =
    let (first, read, more) =
      bind_ok (route_entry_from_wire body (base + j * 12) naive) _ routes h in
    let (others, reads, made) = bind_ok (read_routes left base (j + 1) body naive) _ routes more in
    let same : first ∷ others ≡ routes = cc in
    ap length (sym same) ∙ ap suc (length-read_routes left base (j + 1) body naive others reads)

pub validate_both :
    (rows : List RowDescriptor) (routes : List RouteEntry) (n m : ℕ)
    → length rows ≡ n
    → length routes ≡ m
    → validate_rows_routes rows routes ≡ ok tt
    → (validate_rows 0 rows m ≡ ok tt) × (validate_routes 0 routes n ≡ ok tt)
unfolding validate_rows_routes
validate_both rows routes n m nr nt valid =
    let (u, first, second) = bind_ok (validate_rows 0 rows (length routes)) _ tt valid in
    (rw nt at first, rw nr at second)
