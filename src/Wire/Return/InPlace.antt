-- ===== src/Wire/Return/InPlace.antt =====
-- crates/mimo26-wire/src/frame.rs: a return frame assembled in place, its header written first and its
-- rows filled in by the caller.
use mimo26f_afd.Prelude.{
  ℕ, ◌==◌, ◌||◌, ◌≡◌, refl, ap, ◌∙◌, inl, inr, Bool-cases, none, some, if◌then◌else◌, List, ◌++◌,
  length, Result, ok, err, ◌>>=◌,
}
use mimo26f_afd.Word.{checked_add64}
use mimo26f_afd.Wire.Naive.{WireNaive, has, per_route_return, fp32_return}
use mimo26f_afd.Wire.Error.{WireError, dim_mismatch}
use mimo26f_afd.Wire.Layout.{bf16, decode, header_len, hidden, kind_return, return_row_bytes}
use mimo26f_afd.Wire.Bytes.{put, to_le_bytes}
use mimo26f_afd.Wire.Request.{checked_mul, as_u32, usize_max}
use mimo26f_afd.Wire.Header.{HeaderFields, write_header, refuse_if}
use mimo26f_afd.Wire.Crc.{Process, compute_crc, seal}
use mimo26f_afd.Wire.Return.{ReturnFrame, check_codes, return_header, encode_return_seq}
use mimo26f_afd.Wire.Return.RoundTrip.{IsCompact, return_body}

-- The `HeaderFields` that `return_header_seq` fills in.
in_place_header : ReturnFrame → ℕ → ℕ → WireNaive → Result WireError HeaderFields
in_place_header frame rows seq naive = do
  let block = return_row_bytes frame.route_count naive
  payload_bytes ← checked_mul rows block "payload_bytes"
  wire_len ← elim (checked_add64 header_len payload_bytes) [
    | none ↦ err (dim_mismatch "wire_bytes" 0 usize_max)
    | some n ↦ ok n
  ]
  row_count ← as_u32 rows "row_count"
  route_count ← as_u32 frame.route_count "route_count"
  row_stride_bytes ← as_u32 block "row_stride_bytes"
  ok (record {
    kind = kind_return;
    request_id = frame.request_id;
    placement_version = frame.placement_version;
    layer_id = frame.layer_id;
    row_count = row_count;
    dim = hidden;
    dtype = bf16;
    source_kind = decode;
    route_count = route_count;
    row_descriptor_bytes = 0;
    route_bytes = 0;
    payload_bytes = payload_bytes;
    logical_payload_bytes = payload_bytes;
    wire_bytes = wire_len;
    flags = frame.flags;
    row_stride_bytes = row_stride_bytes;
    status = frame.status;
    executor_id = frame.executor_id;
    token_position = frame.token_position;
    seq = seq;
  })

pub return_header_seq : ReturnFrame → ℕ → ℕ → WireNaive → Result WireError (List ℕ)
return_header_seq frame rows seq naive = do
  _ ← refuse_if (rows == 0) (dim_mismatch "rows" 1 0)
  _ ← refuse_if (frame.route_count == 0) (dim_mismatch "route_count" 1 0)
  _ ←
      refuse_if (has naive per_route_return || has naive fp32_return)
        (dim_mismatch "in_place_return_dtype" 0 1)
  h ← in_place_header frame rows seq naive
  ok (write_header h naive)

pub seal_in_place : Process → List ℕ → WireNaive → List ℕ
seal_in_place proc buf naive =
    if proc.crc_disabled then buf else put buf 120 (to_le_bytes 4 (compute_crc proc buf naive))

bind_assoc :
    {A B C : Type 0} (r : Result WireError A) (f : A → Result WireError B)
    (g : B → Result WireError C)
    → ((r >>= f) >>= g) ≡ (r >>= (λ a. f a >>= g))
bind_assoc (ok a) f g = refl
bind_assoc (err e) f g = refl

bind_same :
    {A B : Type 0} (r : Result WireError A) (f g : A → Result WireError B)
    → ((a : A) → f a ≡ g a)
    → (r >>= f) ≡ (r >>= g)
bind_same (ok a) f g h = h a
bind_same (err e) f g h = refl

in_place_header-return_header :
    (frame : ReturnFrame) (rows seq : ℕ) (naive : WireNaive)
    → IsCompact naive
    → in_place_header frame rows seq naive ≡ return_header frame rows seq naive
unfolding in_place_header return_header
in_place_header-return_header frame rows seq naive c = rw (c.one_sum, c.bf16_rows) refl

seal_in_place-seal :
    (proc : Process) (buf : List ℕ) (naive : WireNaive)
    → seal_in_place proc buf naive ≡ seal proc buf naive
unfolding seal_in_place seal
seal_in_place-seal proc buf naive = refl

-- Under every variant that keeps the rows compact, and for rows of 4096 codes each: writing the header,
-- then the rows behind it, and sealing the whole in place gives the bytes that `encode_return_seq`
-- gives, and the same error where there is one.
pub return_header_seq-encode_return_seq :
    (proc : Process) (frame : ReturnFrame) (seq : ℕ) (naive : WireNaive)
    → IsCompact naive
    → check_codes frame.rows ≡ ok tt
    → (do
      head ← return_header_seq frame (length frame.rows) seq naive
      ok (seal_in_place proc (head ++ return_body frame) naive))
      ≡ encode_return_seq proc frame seq naive
unfolding return_header_seq encode_return_seq
return_header_seq-encode_return_seq proc frame seq naive c codes =
    elim (Bool-cases (length frame.rows == 0)) [
      | inl empty ↦ rw empty refl
      | inr some_rows ↦ elim (Bool-cases (frame.route_count == 0)) [
        | inl empty ↦ rw (some_rows, empty) refl
        | inr some_routes ↦
            rw
              (
                some_rows,
                some_routes,
                codes,
                c.one_sum,
                c.bf16_rows,
                in_place_header-return_header frame (length frame.rows) seq naive c,
              )
              (bind_assoc (return_header frame (length frame.rows) seq naive) _ _
                ∙ bind_same (return_header frame (length frame.rows) seq naive) _ _ (λ h.
                  ap ok
                    (seal_in_place-seal proc (write_header h naive ++ return_body frame) naive)))
      ]
    ]
