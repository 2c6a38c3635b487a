-- ===== src/Encoder/Laws.antt =====
-- src/protocol/Encoder.ts: the size field is right, and what `build` returns is what was written.
use kafka_node_ts.Prelude.{
  ℕ, ◌-◌, ◌≡◌, refl, ap, ◌∙◌, sym, List, [], ◌∷◌, ◌++◌, length, length-append, append-nil,
  append_assoc, take-all, take, arith,
}
use kafka_node_ts.Prelude.Errors.{Result, ok, ◌>>=◌}
use kafka_node_ts.Buffer.{Bytes, alloc}
use kafka_node_ts.Encoder.{Encoder, new_encoder, write_buffer, push_result, concat, build}

-- The size counts the bytes collected.
abbrev pub IsConsistent : Encoder → Type 0
IsConsistent e = e.size ≡ length (concat e.buffers)

pub new_encoder-IsConsistent : IsConsistent new_encoder
unfolding concat
new_encoder-IsConsistent = refl

concat-append : (xs ys : List Bytes) → concat (xs ++ ys) ≡ concat xs ++ concat ys
unfolding concat
concat-append [] ys = refl
concat-append (x ∷ xs) ys =
    ap (◌++◌ x) (concat-append xs ys) ∙ sym (append_assoc x (concat xs) (concat ys))

concat-write_buffer :
    (e : Encoder) (b : Bytes) → concat (write_buffer e b).buffers ≡ concat e.buffers ++ b
unfolding write_buffer concat
concat-write_buffer e b =
    concat-append e.buffers (b ∷ []) ∙ ap (◌++◌ (concat e.buffers)) (append-nil b)

pub write_buffer-IsConsistent :
    (e : Encoder) (b : Bytes) → IsConsistent e → IsConsistent (write_buffer e b)
write_buffer-IsConsistent e b h =
    rw (concat-write_buffer e b)
      (unfold write_buffer in omega (arith, length-append (concat e.buffers) b))

pub build-concat : (e : Encoder) → IsConsistent e → build e ≡ concat e.buffers
unfolding build
build-concat e h = rw h (
    ap (λ (k : ℕ). take (length (concat e.buffers)) (concat e.buffers ++ alloc k)) none_left
    ∙ rw append-nil (take-all (length (concat e.buffers)) (concat e.buffers) (omega arith)))
  where
    none_left : length (concat e.buffers) - length (concat e.buffers) ≡ 0
    none_left = omega arith

-- On a consistent encoder, pushing a buffer appends it to what `build` returns.
build-write_buffer :
    (e : Encoder) (b : Bytes) → IsConsistent e → build (write_buffer e b) ≡ build e ++ b
build-write_buffer e b h =
    build-concat (write_buffer e b) (write_buffer-IsConsistent e b h)
    ∙ concat-write_buffer e b
    ∙ ap (λ (t : Bytes). t ++ b) (sym (build-concat e h))

-- From any consistent encoder, `write` succeeds and appends exactly the bytes `b`.
abbrev pub Appends : (Encoder → Result Encoder) → Bytes → Type 0
Appends write b =
    (e : Encoder)
    → IsConsistent e
    → (e' : Encoder) × (write e ≡ ok e') × IsConsistent e' × (build e' ≡ build e ++ b)

pub push_result-Appends :
    (r : Result Bytes) {b : Bytes} → r ≡ ok b → Appends (λ e. push_result e r) b
push_result-Appends r {b} h e c =
    (write_buffer e b, rw h, write_buffer-IsConsistent e b c, build-write_buffer e b c)

-- One write after another appends the one's bytes, then the other's.
pub >>=-Appends :
    (first second : Encoder → Result Encoder) (a b : Bytes)
    → Appends first a
    → Appends second b
    → Appends (λ e. first e >>= second) (a ++ b)
>>=-Appends first second a b p q e c =
    let (e₁, r₁, c₁, b₁) = p e c in
    let (e₂, r₂, c₂, b₂) = q e₁ c₁ in
    (e₂, rw r₁ r₂, c₂, b₂ ∙ ap (λ (t : Bytes). t ++ b) b₁ ∙ append_assoc (build e) a b)

pub ok-Appends : Appends (λ e. ok e) []
ok-Appends e c = (e, refl, c, sym (append-nil (build e)))

pub Appends-eq :
    (f g : Encoder → Result Encoder) (b : Bytes)
    → ((e : Encoder) → f e ≡ g e)
    → Appends g b
    → Appends f b
Appends-eq f g b h p e c = let (e', r, c', w) = p e c in (e', h e ∙ r, c', w)
