-- ===== src/Player/Blocks.antt =====
-- src/client.c: what rsdplay sends of its input.
use mathlib.Core.List.{append_assoc}
use mathlib.Core.Path.{subst}
use rsound.Base.{
  ◌≡◌, ◌<◌, refl, sym, ap, ◌∙◌, ℕ, zero, suc, false, Option, List, [], ◌∷◌, ◌++◌, ◌==◌, ltb,
  if◌then◌else◌, length, take, drop, arith, Bool-cases, inl, inr, take-append-drop, ltb→lt,
}
use rsound.Net.{pending, failed, returned, Sent, write_all, flatten}
use rsound.Net.Send.{write_all_lem}
use rsound.Player.{after_block, send_input}

flatten-append : (xs ys : List (List ℕ)) → flatten (xs ++ ys) ≡ flatten xs ++ flatten ys
unfolding flatten
flatten-append [] ys = refl
flatten-append (x ∷ xs) ys =
    ap (λ zs. x ++ zs) (flatten-append xs ys) ∙ sym (append_assoc x (flatten xs) (flatten ys))

-- All but an end that is shorter than a block.
abbrev pub SendsBlocks : List ℕ → Sent → Type 0
SendsBlocks input sent = (rest : List ℕ) × (flatten sent.1 ++ rest ≡ input) × (length rest < 1024)

module _ (input : List ℕ) (rest : Sent)
    (later : rest.0 ≡ returned 1 → SendsBlocks (drop 1024 input) rest) where
  block_sent :
      (sent : Sent)
      → ((n : ℕ) → sent.0 ≡ returned (suc n) → flatten sent.1 ≡ take 1024 input)
      → (after_block rest sent).0 ≡ returned 1
      → SendsBlocks input (after_block rest sent)
  block_sent (pending, packets) whole e = ground arith
  block_sent (failed, packets) whole e = ground arith
  block_sent (returned zero, packets) whole e = ground arith
  block_sent (returned (suc n), packets) whole e =
      let some_bytes : (suc n == 0) ≡ false = ground arith in
      let goes_on : after_block rest (returned (suc n), packets) ≡ (rest.0, packets ++ rest.1) =
        ap (λ b. if b then (returned 0, packets) else (rest.0, packets ++ rest.1)) some_bytes in
      let (end, split, few) = later (sym (ap (λ r. r.0) goes_on) ∙ e) in
      subst (SendsBlocks input) (sym goes_on) (
        end,
        ap (λ xs. xs ++ end) (flatten-append packets rest.1)
            ∙ (append_assoc (flatten packets) (flatten rest.1) end
                ∙ (ap (λ xs. flatten packets ++ xs) split
                    ∙ (ap (λ xs. xs ++ drop 1024 input) (whole n refl)
                        ∙ take-append-drop 1024 input))),
        few,
      )

pending_apart : (A : Type 0) → pending ≡ returned 1 → A
pending_apart A e = ground arith

-- When the loop of rsdplay ends by itself, which is at the first block that is not whole, it has sent
-- the blocks before it in order; of the input, up to 1023 bytes at the end are not sent.
pub send_input_lem :
    (input : List ℕ) (sends : List (List (Option ℕ)))
    → (send_input input sends).0 ≡ returned 1
    → SendsBlocks input (send_input input sends)
unfolding send_input flatten
send_input_lem input [] e = pending_apart (SendsBlocks input (pending, [])) e
send_input_lem input (s ∷ later) e = elim (Bool-cases (ltb (length input) 1024)) [
  | inl short ↦
      let few : length input < 1024 = ltb→lt (length input) 1024 short in
      let ends =
        ap
          (λ b.
            if b
            then (returned 1, [])
            else after_block (send_input (drop 1024 input) later) (write_all (take 1024 input) 0 s))
          short in
      subst (SendsBlocks input) (sym ends) (input, nothing_sent input, few)
  | inr long ↦
      let rest = send_input (drop 1024 input) later in
      let sent = write_all (take 1024 input) 0 s in
      let goes_on = ap (λ b. if b then (returned 1, []) else after_block rest sent) long in
      subst (SendsBlocks input) (sym goes_on) (
        block_sent input rest (send_input_lem (drop 1024 input) later) sent
          (λ n got. (write_all_lem (take 1024 input) s n got).0) (sym (ap (λ r. r.0) goes_on) ∙ e))
]
  where
    nothing_sent : (xs : List ℕ) → flatten [] ++ xs ≡ xs
    nothing_sent xs = refl
