-- ===== src/Wire/Crc/Framed.antt =====
-- A sealed frame opens: its header parses and its checksum is accepted.
use mimo26f_afd.Prelude.{
  ℕ, ◌+◌, ◌≤◌, ◌≡◌, refl, sym, ap, ◌∙◌, arith, Bool-cases, inl, inr, List, ◌++◌, length,
  length-append, take, drop, take-append_left, drop-append_left, append_assoc, ok,
}
use mimo26f_afd.Wire.Naive.{WireNaive}
use mimo26f_afd.Wire.Layout.{header_len}
use mimo26f_afd.Wire.Bytes.{put, to_le_bytes}
use mimo26f_afd.Wire.Header.{HeaderFields, write_header, parse_header}
use mimo26f_afd.Wire.Header.RoundTrip.{
  IsHeader, HoldsHeader, write_header-HoldsHeader, sealed-HoldsHeader, HoldsHeader-append,
  parse_header-HoldsHeader, length-write_header, length-sealed,
}
use mimo26f_afd.Wire.Crc.{Process, compute_crc, seal, verify_crc}
use mimo26f_afd.Wire.Crc.Sealed.{verify_crc-seal}

-- A write inside the first part leaves the second.
put-append_left :
    (a b : List ℕ) (at : ℕ) (v : List ℕ)
    → at + length v ≤ length a
    → put (a ++ b) at v ≡ put a at v ++ b
put-append_left a b at v h =
    let first = take-append_left at a b (omega arith) in
    let last = drop-append_left (at + length v) a b h in
    rw (first, last)
      (sym (
        append_assoc (take at a) (v ++ drop (at + length v) a) b
        ∙ ap (λ l. take at a ++ l) (append_assoc v (drop (at + length v) a) b)))

-- The 128 bytes that stand in front of the body once the frame is sealed.
record HasHead (h : HeaderFields) (naive : WireNaive) (body frame : List ℕ) : Type 0 where
  pub head : List ℕ
  pub holds : HoldsHeader h naive head
  pub size : length head ≡ header_len
  pub split : frame ≡ head ++ body

seal-HasHead :
    (proc : Process) (h : HeaderFields) (naive : WireNaive) (body : List ℕ)
    → HasHead h naive body (seal proc (write_header h naive ++ body) naive)
unfolding seal
seal-HasHead proc h naive body = elim (Bool-cases proc.crc_disabled) [
  | inl off ↦ rw off (record {
    head = write_header h naive;
    holds = write_header-HoldsHeader h naive;
    size = length-write_header h naive;
    split = refl;
  })
  | inr on ↦
      let crc = compute_crc proc (write_header h naive ++ body) naive in
      rw on (record {
        head = put (write_header h naive) 120 (to_le_bytes 4 crc);
        holds = sealed-HoldsHeader h naive crc;
        size = length-sealed h naive crc;
        split =
            put-append_left (write_header h naive) body 120 (to_le_bytes 4 crc)
              (omega (arith, length-write_header h naive));
      })
]

-- What a receiver of the same process configuration and variant finds in a sealed frame.
pub record Opens (proc : Process) (h : HeaderFields) (naive : WireNaive) (body frame : List ℕ)
    : Type 0 where
  pub head : List ℕ
  pub size : length head ≡ header_len
  pub split : frame ≡ head ++ body
  pub parsed : parse_header frame naive ≡ ok h
  pub checked : verify_crc proc frame naive h.seq ≡ ok tt

-- A frame of a well-typed header, of the declared length, opens once it is sealed.
pub seal-Opens :
    (proc : Process) (h : HeaderFields) (naive : WireNaive) (body : List ℕ)
    → IsHeader h
    → h.wire_bytes ≡ header_len + length body
    → Opens proc h naive body (seal proc (write_header h naive ++ body) naive)
seal-Opens proc h naive body i e =
    let s = seal-HasHead proc h naive body in
    record {
      head = s.head;
      size = s.size;
      split = s.split;
      parsed = rw s.split (
          parse_header-HoldsHeader h naive (s.head ++ body) i
            (HoldsHeader-append h naive s.head body s.holds)
            (omega (arith, length-append s.head body, s.size)));
      checked =
          verify_crc-seal proc (write_header h naive ++ body) naive h.seq
            (omega (arith, length-append (write_header h naive) body, length-write_header h naive));
    }
