-- ===== src/Uart/Sending.antt =====
-- The bytes of Xv6/kernel/uart.c are sent in the order in which they are put.
use os_project.Prelude.{
  ℕ, zero, suc, ◌+◌, ◌-◌, ◌%◌, ◌≤◌, ◌<◌, ◌≡◌, ◌≢◌, ◌⊎◌, inl, inr, refl, ap, sym, ◌∙◌, ap₂, Bool,
  true, false, not, Bool-cases, none, some, List, [], ◌∷◌, ◌++◌, ◌==◌, if◌then◌else◌, if_true,
  if_false, arith,
}
use mathlib.Core.Path.{subst}
use os_project.Uart.{tx_size, Uart, word, next, uartstart, stored, uartputc}

abbrev pub waiting : Uart → ℕ
waiting u = (u.w + (word - u.r)) % word

pub record IsValid (u : Uart) : Type 0 where
  pub w_word : u.w < word
  pub r_word : u.r < word
  pub fits : waiting u ≤ tx_size

-- The bytes from counter `r` on.
unfoldable pub collect : (n r : ℕ) → (ℕ → ℕ) → List ℕ
collect zero r buf = []
collect (suc n) r buf = buf (r % tx_size) ∷ collect n (next r) buf

-- The bytes that are put and not sent.
abbrev pub pending : Uart → List ℕ
pending u = collect (waiting u) u.r u.buf

collect_snoc :
    (n r : ℕ) (buf : ℕ → ℕ)
    → r < word
    → collect (suc n) r buf ≡ collect n r buf ++ (buf ((r + n) % word % tx_size) ∷ [])
unfolding collect
collect_snoc zero r buf lt = ap (λ j. buf (j % tx_size) ∷ []) (here r lt)
  where
    here : (r : ℕ) → r < word → r ≡ (r + 0) % word
    here r lt = omega arith
collect_snoc (suc n) r buf lt =
    ap (λ l. buf (r % tx_size) ∷ l)
      (collect_snoc n (next r) buf (omega arith)
        ∙ ap (λ j. collect n (next r) buf ++ (buf (j % tx_size) ∷ [])) (there r n))
  where
    there : (r n : ℕ) → (next r + n) % word ≡ (r + suc n) % word
    there r n = omega arith

-- A slot that none of the bytes is in.
collect_other :
    (n r s ch : ℕ) (buf : ℕ → ℕ)
    → r < word
    → ((k : ℕ) → k < n → ((r + k) % word % tx_size == s) ≡ false)
    → collect n r (λ j. if j == s then ch else buf j) ≡ collect n r buf
unfolding collect
collect_other zero r s ch buf lt apart = refl
collect_other (suc n) r s ch buf lt apart =
    ap₂ (λ x l. x ∷ l)
      (if_false (r % tx_size == s) ch (buf (r % tx_size))
        (ap (λ j. j % tx_size == s) (here r lt) ∙ apart 0 (omega arith)))
      (collect_other n (next r) s ch buf (omega arith)
        (λ k small. ap (λ j. j % tx_size == s) (there r k) ∙ apart (suc k) (omega arith)))
  where
    here : (r : ℕ) → r < word → r ≡ (r + 0) % word
    here r lt = omega arith

    there : (r n : ℕ) → (next r + n) % word ≡ (r + suc n) % word
    there r n = omega arith

-- What is sent, and what is pending then, is what was pending.
pub record Sent (l : List ℕ) (u : Uart) (before : List ℕ) : Type 0 where
  pub valid : IsValid u
  pub in_order : l ++ pending u ≡ before

pub uartstart-Sent :
    (is_idle : ℕ → Bool) (rounds sent : ℕ) (u : Uart)
    → IsValid u
    → (let r = uartstart is_idle rounds sent u in Sent r.0 r.1 (pending u))
unfolding uartstart
uartstart-Sent is_idle zero sent u v = record { valid = v; in_order = refl }
uartstart-Sent is_idle (suc n) sent u v = elim (Bool-cases (u.w == u.r)) [
  | inl empty ↦
      subst (λ (r : List ℕ × Uart). Sent r.0 r.1 (pending u)) (sym (if_true (u.w == u.r) _ _ empty))
        (record { valid = v; in_order = refl })
  | inr some_left ↦
      subst (λ (r : List ℕ × Uart). Sent r.0 r.1 (pending u))
        (sym (if_false (u.w == u.r) _ _ some_left))
        (elim (Bool-cases (not (is_idle sent))) [
          | inl busy ↦
              subst (λ (r : List ℕ × Uart). Sent r.0 r.1 (pending u))
                (sym (if_true (not (is_idle sent)) _ _ busy))
                (record { valid = v; in_order = refl })
          | inr idle ↦
              subst (λ (r : List ℕ × Uart). Sent r.0 r.1 (pending u))
                (sym (if_false (not (is_idle sent)) _ _ idle))
                (let w_word = v.w_word in
                  let r_word = v.r_word in
                  let fits = v.fits in
                  let ne : u.w ≢ u.r = apart u.w u.r some_left in
                  let s =
                    uartstart-Sent is_idle n (sent + 1) (record u { r = next u.r })
                      (record { w_word = w_word; r_word = omega arith; fits = omega arith }) in
                  record {
                    valid = s.valid;
                    in_order =
                        ap (λ l. u.buf (u.r % tx_size) ∷ l) s.in_order
                        ∙ sym (
                            ap (λ m. collect m u.r u.buf) (one_less u.w u.r w_word r_word ne)
                            ∙ unfold collect in refl);
                  })
        ])
]
  where
    apart : (a b : ℕ) → (a == b) ≡ false → a ≢ b
    apart a b e = ground arith

    one_less :
        (w r : ℕ)
        → w < word
        → r < word
        → w ≢ r
        → (w + (word - r)) % word ≡ suc ((w + (word - next r)) % word)
    one_less w r lt lt' ne = omega arith

stored-IsValid : (ch : ℕ) (u : Uart) → IsValid u → waiting u < tx_size → IsValid (stored ch u)
stored-IsValid ch u v room =
    let w_word = v.w_word in
    let r_word = v.r_word in record { w_word = omega arith; r_word = r_word; fits = omega arith }

pending-stored :
    (ch : ℕ) (u : Uart)
    → IsValid u
    → waiting u < tx_size
    → pending (stored ch u) ≡ pending u ++ (ch ∷ [])
pending-stored ch u v room =
    let put = (stored ch u).buf in
    ap (λ n. collect n u.r put) (one_more u.w u.r v.w_word v.r_word room)
    ∙ collect_snoc (waiting u) u.r put v.r_word
    ∙ ap₂ (λ l x. l ++ (x ∷ []))
        (collect_other (waiting u) u.r (u.w % tx_size) ch u.buf v.r_word
          (λ k lt. other_slot u.w u.r k v.w_word v.r_word room lt))
        (if_true ((u.r + waiting u) % word % tx_size == u.w % tx_size) ch
          (u.buf ((u.r + waiting u) % word % tx_size)) (own_slot u.w u.r v.w_word v.r_word))
  where
    one_more :
        (w r : ℕ)
        → w < word
        → r < word
        → (w + (word - r)) % word < tx_size
        → (next w + (word - r)) % word ≡ suc ((w + (word - r)) % word)
    one_more w r lt lt' room = omega arith

    own_slot :
        (w r : ℕ)
        → w < word
        → r < word
        → ((r + (w + (word - r)) % word) % word % tx_size == w % tx_size) ≡ true
    own_slot w r lt lt' =
        (let same : (r + (w + (word - r)) % word) % word ≡ w = omega arith in ground arith)

    other_slot :
        (w r k : ℕ)
        → w < word
        → r < word
        → (w + (word - r)) % word < tx_size
        → k < (w + (word - r)) % word
        → ((r + k) % word % tx_size == w % tx_size) ≡ false
    other_slot w r k lt lt' room small = ground arith

-- With a valid buffer, `uartputc` sleeps exactly if 32 bytes are waiting. Else what it sends and what is
-- waiting then are what was waiting and the new byte behind it, in order, and the buffer stays valid.
pub uartputc-Sent :
    (is_idle : ℕ → Bool) (ch : ℕ) (u : Uart)
    → IsValid u
    → (waiting u ≡ tx_size) × (uartputc is_idle ch u ≡ none)
      ⊎ (waiting u < tx_size)
        × ((l : List ℕ) × (d : Uart) × (uartputc is_idle ch u ≡ some (l, d))
            × Sent l d (pending u ++ (ch ∷ [])))
unfolding uartputc
uartputc-Sent is_idle ch u v = elim (Bool-cases (u.w == (u.r + tx_size) % word)) [
  | inl full ↦ inl (
    all_slots u.w u.r v.w_word v.r_word full,
    if_true (u.w == (u.r + tx_size) % word) none _ full,
  )
  | inr some_room ↦
      (let room = free_slot u.w u.r v.w_word v.r_word v.fits some_room in
        let s = uartstart-Sent is_idle (tx_size + 1) 0 (stored ch u) (stored-IsValid ch u v room) in
        inr (
          room,
          (
            (uartstart is_idle (tx_size + 1) 0 (stored ch u)).0,
            (uartstart is_idle (tx_size + 1) 0 (stored ch u)).1,
            if_false (u.w == (u.r + tx_size) % word) none _ some_room,
            record { valid = s.valid; in_order = s.in_order ∙ pending-stored ch u v room },
          ),
        ))
]
  where
    all_slots :
        (w r : ℕ)
        → w < word
        → r < word
        → (w == (r + tx_size) % word) ≡ true
        → (w + (word - r)) % word ≡ tx_size
    all_slots w r lt lt' e = ground arith

    free_slot :
        (w r : ℕ)
        → w < word
        → r < word
        → (w + (word - r)) % word ≤ tx_size
        → (w == (r + tx_size) % word) ≡ false
        → (w + (word - r)) % word < tx_size
    free_slot w r lt lt' fits e = ground arith
