-- ===== src/Wire/Row/RoundTrip.antt =====
-- Row descriptors and route entries read back what was written, under every variant.
use mimo26f_afd.Prelude.{
  ℕ, ◌+◌, ◌<◌, ◌^◌, ◌≡◌, refl, sym, true, arith, leb, Bool-cases, inl, inr, List, ◌++◌, length,
  take, drop, ok,
}
use mimo26f_afd.Wire.Naive.{WireNaive, has, desc_field_drift, route_field_swap}
use mimo26f_afd.Wire.Layout.{source_kind_code}
use mimo26f_afd.Wire.Layout.Codes.{source_kind_lem, source_kind-lt}
use mimo26f_afd.Wire.Bytes.{Holds, get-Holds, take-drop_middle, length-append_middle}
use mimo26f_afd.Wire.Row.{
  RowDescriptor, RouteEntry, write_row, read_row, write_route, read_route, row_descriptor_wire,
  row_descriptor_from_wire, route_entry_wire, route_entry_from_wire, id_and_position, id_and_weight,
}

-- The fields are values of their machine types.
pub record IsRow (row : RowDescriptor) : Type 0 where
  pub row_id : row.row_id < 2 ^ 64
  pub source_request_id : row.source_request_id < 2 ^ 64
  pub token_position : row.token_position < 2 ^ 64
  pub route_offset : row.route_offset < 2 ^ 32
  pub route_count : row.route_count < 2 ^ 32

pub record IsRoute (r : RouteEntry) : Type 0 where
  pub row_index : r.row_index < 2 ^ 32
  pub expert_id : r.expert_id < 2 ^ 32
  pub gate_weight : r.gate_weight < 2 ^ 32

record HoldsRow (row : RowDescriptor) (places : ℕ × ℕ) (b : List ℕ) : Type 0 where
  pub size : length b ≡ 40
  pub row_id : Holds b 8 0 row.row_id
  pub source_kind : Holds b 2 8 (source_kind_code row.source_kind)
  pub source_request_id : Holds b 8 places.0 row.source_request_id
  pub token_position : Holds b 8 places.1 row.token_position
  pub route_offset : Holds b 4 28 row.route_offset
  pub route_count : Holds b 4 32 row.route_count

read_row-HoldsRow :
    (row : RowDescriptor) (places : ℕ × ℕ) (b : List ℕ)
    → IsRow row
    → HoldsRow row places b
    → read_row b places ≡ ok row
unfolding read_row
read_row-HoldsRow row places b h r =
    rw
      (
        get-Holds b 8 0 row.row_id h.row_id r.row_id,
        get-Holds b 2 8 (source_kind_code row.source_kind) (source_kind-lt row.source_kind)
            r.source_kind,
        source_kind_lem row.source_kind,
        get-Holds b 8 places.0 row.source_request_id h.source_request_id r.source_request_id,
        get-Holds b 8 places.1 row.token_position h.token_position r.token_position,
        get-Holds b 4 28 row.route_offset h.route_offset r.route_offset,
        get-Holds b 4 32 row.route_count h.route_count r.route_count,
      )
      refl

write_row-HoldsRow :
    (row : RowDescriptor) (naive : WireNaive)
    → HoldsRow row (id_and_position naive) (row_descriptor_wire row naive)
unfolding row_descriptor_wire write_row
write_row-HoldsRow row naive = elim (Bool-cases (has naive desc_field_drift)) [
  | inl e ↦ rw e (record {
    size = refl;
    row_id = (omega arith, refl);
    source_kind = (omega arith, refl);
    source_request_id = (omega arith, refl);
    token_position = (omega arith, refl);
    route_offset = (omega arith, refl);
    route_count = (omega arith, refl);
  })
  | inr e ↦ rw e (record {
    size = refl;
    row_id = (omega arith, refl);
    source_kind = (omega arith, refl);
    source_request_id = (omega arith, refl);
    token_position = (omega arith, refl);
    route_offset = (omega arith, refl);
    route_count = (omega arith, refl);
  })
]

pub length-row_descriptor_wire :
    (row : RowDescriptor) (naive : WireNaive) → length (row_descriptor_wire row naive) ≡ 40
length-row_descriptor_wire row naive = (write_row-HoldsRow row naive).size

-- Where a descriptor stands anywhere in a buffer, reading it there gives it back, whichever variant
-- both sides use, provided that its numbers are values of their machine types.
pub row_descriptor_lem :
    (row : RowDescriptor) (naive : WireNaive) (pre post : List ℕ)
    → IsRow row
    → row_descriptor_from_wire (pre ++ (row_descriptor_wire row naive ++ post)) (length pre) naive
      ≡ ok row
unfolding row_descriptor_from_wire
row_descriptor_lem row naive pre post h =
    let b = row_descriptor_wire row naive in
    let r = write_row-HoldsRow row naive in
    let mid : take 40 (drop (length pre) (pre ++ (b ++ post))) ≡ b =
      rw (sym r.size) (take-drop_middle pre b post) in
    let fit : leb (length pre + 40) (length (pre ++ (b ++ post))) ≡ true =
      ground (arith, length-append_middle pre b post, r.size) in
    rw (fit, mid) (read_row-HoldsRow row (id_and_position naive) b h r)

record HoldsRoute (r : RouteEntry) (places : ℕ × ℕ) (b : List ℕ) : Type 0 where
  pub size : length b ≡ 12
  pub row_index : Holds b 4 0 r.row_index
  pub expert_id : Holds b 4 places.0 r.expert_id
  pub gate_weight : Holds b 4 places.1 r.gate_weight

read_route-HoldsRoute :
    (r : RouteEntry) (places : ℕ × ℕ) (b : List ℕ)
    → IsRoute r
    → HoldsRoute r places b
    → read_route b places ≡ ok r
unfolding read_route
read_route-HoldsRoute r places b h holds =
    rw
      (
        get-Holds b 4 0 r.row_index h.row_index holds.row_index,
        get-Holds b 4 places.0 r.expert_id h.expert_id holds.expert_id,
        get-Holds b 4 places.1 r.gate_weight h.gate_weight holds.gate_weight,
      )
      refl

write_route-HoldsRoute :
    (r : RouteEntry) (naive : WireNaive)
    → HoldsRoute r (id_and_weight naive) (route_entry_wire r naive)
unfolding route_entry_wire write_route
write_route-HoldsRoute r naive = elim (Bool-cases (has naive route_field_swap)) [
  | inl e ↦ rw e (record {
    size = refl;
    row_index = (omega arith, refl);
    expert_id = (omega arith, refl);
    gate_weight = (omega arith, refl);
  })
  | inr e ↦ rw e (record {
    size = refl;
    row_index = (omega arith, refl);
    expert_id = (omega arith, refl);
    gate_weight = (omega arith, refl);
  })
]

pub length-route_entry_wire :
    (r : RouteEntry) (naive : WireNaive) → length (route_entry_wire r naive) ≡ 12
length-route_entry_wire r naive = (write_route-HoldsRoute r naive).size

-- Where a route entry stands anywhere in a buffer, reading it there gives it back, whichever variant
-- both sides use, provided that its numbers are values of their machine types.
pub route_entry_lem :
    (r : RouteEntry) (naive : WireNaive) (pre post : List ℕ)
    → IsRoute r
    → route_entry_from_wire (pre ++ (route_entry_wire r naive ++ post)) (length pre) naive ≡ ok r
unfolding route_entry_from_wire
route_entry_lem r naive pre post h =
    let b = route_entry_wire r naive in
    let w = write_route-HoldsRoute r naive in
    let mid : take 12 (drop (length pre) (pre ++ (b ++ post))) ≡ b =
      rw (sym w.size) (take-drop_middle pre b post) in
    let fit : leb (length pre + 12) (length (pre ++ (b ++ post))) ≡ true =
      ground (arith, length-append_middle pre b post, w.size) in
    rw (fit, mid) (read_route-HoldsRoute r (id_and_weight naive) b h w)
