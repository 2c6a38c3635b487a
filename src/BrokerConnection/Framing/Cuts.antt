-- ===== src/BrokerConnection/Framing/Cuts.antt =====
-- src/network/BrokerConnection.ts: a beginning of the bytes of messages and a rest.
use native.Mathlib.Decide.{dec_lt}
use kafka_node_ts.Prelude.{
  ℕ, ◌+◌, ◌≤◌, ◌<◌, ◌≡◌, refl, ap, ◌∙◌, sym, inl, inr, List, [], ◌∷◌, ◌++◌, length, length-append,
  append_assoc, take, drop, take-append_le, drop-append_le, take-append, drop-append,
  take-append-drop, le→leb, All, arith,
}
use kafka_node_ts.Prelude.Int.{pos}
use kafka_node_ts.Prelude.Errors.{ok}
use kafka_node_ts.Buffer.{Bytes, int_bytes, read_int}
use kafka_node_ts.Buffer.Numbers.{read_int-in}
use kafka_node_ts.BrokerConnection.Framing.{frame, stream, IsMessage, IsPartial}
use kafka_node_ts.BrokerConnection.Framing.Rounds.{length-frame}

-- What stands before `b` is complete messages and a rest, which `b` completes to the other messages.
pub record Cut (a b : Bytes) (ms : List Bytes) (rest : Bytes) : Type 0 where
  pub front : List Bytes
  pub back : List Bytes
  pub left : Bytes
  pub whole : ms ≡ front ++ back
  pub first : a ≡ stream front ++ left
  pub second : left ++ b ≡ stream back ++ rest
  pub partial : IsPartial left
  pub front_fine : All IsMessage front
  pub back_fine : All IsMessage back

read_int-prefix : (a b : Bytes) → 4 ≤ length a → read_int 4 (a ++ b) (pos 0) ≡ read_int 4 a (pos 0)
unfolding read_int
read_int-prefix a b h = rw (
  take-append_le 4 a b h,
  le→leb (0 + 4) (length a) (omega arith),
  le→leb (0 + 4) (length (a ++ b)) (omega (arith, length-append a b)),
)

-- A beginning that is shorter than the message with its size holds no complete message.
prefix-IsPartial :
    (n : ℕ) (a b : Bytes)
    → read_int 4 (a ++ b) (pos 0) ≡ ok (pos n)
    → length a < 4 + n
    → IsPartial a
prefix-IsPartial n a b size lt = elim (dec_lt (length a) 4) [
  | yes short ↦ inl short
  | no long ↦ inr (n, sym (read_int-prefix a b (omega arith)) ∙ size, lt)
]

rest-IsPartial : (a b rest : Bytes) → a ++ b ≡ rest → IsPartial rest → IsPartial a
rest-IsPartial a b rest e (inl short) = inl (omega (arith, ap length e, length-append a b))
rest-IsPartial a b rest e (inr (n, size, lt)) =
    prefix-IsPartial n a b (ap (λ (t : Bytes). read_int 4 t (pos 0)) e ∙ size)
      (omega (arith, ap length e, length-append a b))

frame-IsPartial :
    (m a b tail : Bytes)
    → IsMessage m
    → a ++ b ≡ frame m ++ tail
    → length a < length (frame m)
    → IsPartial a
frame-IsPartial m a b tail h e lt =
    prefix-IsPartial (length m) a b
      (read_int-in 3 0 (pos (length m)) (a ++ b) [] (m ++ tail)
        (e ∙ append_assoc (int_bytes 4 (pos (length m))) m tail) refl h.1)
      (omega (arith, length-frame m))

module _ (m a b tail : Bytes) (e : a ++ b ≡ frame m ++ tail)
    (le : length (frame m) ≤ length a) where
  front_of : a ≡ frame m ++ drop (length (frame m)) a
  front_of =
      sym (take-append-drop (length (frame m)) a)
      ∙ ap (λ (t : Bytes). t ++ drop (length (frame m)) a)
          (sym (take-append_le (length (frame m)) a b le)
            ∙ ap (take (length (frame m))) e
            ∙ take-append (length (frame m)) (frame m) tail refl)

  back_of : drop (length (frame m)) a ++ b ≡ tail
  back_of =
      sym (drop-append_le (length (frame m)) a b le)
      ∙ ap (drop (length (frame m))) e
      ∙ drop-append (length (frame m)) (frame m) tail refl

pub stream-Cut :
    (ms : List Bytes) (a b rest : Bytes)
    → a ++ b ≡ stream ms ++ rest
    → All IsMessage ms
    → IsPartial rest
    → Cut a b ms rest
stream-Cut [] a b rest e hm hr = record {
  front = [];
  back = [];
  left = a;
  whole = refl;
  first = refl;
  second = e;
  partial = rest-IsPartial a b rest e hr;
  front_fine = tt;
  back_fine = tt;
}
stream-Cut (m ∷ ms) a b rest e hm hr =
    let regrouped : a ++ b ≡ frame m ++ (stream ms ++ rest) =
      e ∙ append_assoc (frame m) (stream ms) rest in
    elim (dec_lt (length a) (length (frame m))) [
      | yes short ↦ record {
        front = [];
        back = m ∷ ms;
        left = a;
        whole = refl;
        first = refl;
        second = e;
        partial = frame-IsPartial m a b (stream ms ++ rest) hm.0 regrouped short;
        front_fine = tt;
        back_fine = hm;
      }
      | no long ↦
          let le : length (frame m) ≤ length a = omega arith in
          let c =
            stream-Cut ms (drop (length (frame m)) a) b rest
              (back_of m a b (stream ms ++ rest) regrouped le) hm.1 hr in
          record {
            front = m ∷ c.front;
            back = c.back;
            left = c.left;
            whole = ap (λ (t : List Bytes). m ∷ t) c.whole;
            first =
                front_of m a b (stream ms ++ rest) regrouped le
                ∙ ap (◌++◌ (frame m)) c.first
                ∙ sym (append_assoc (frame m) (stream c.front) c.left);
            second = c.second;
            partial = c.partial;
            front_fine = (hm.0, c.front_fine);
            back_fine = c.back_fine;
          }
    ]
