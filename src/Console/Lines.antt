-- ===== src/Console/Lines.antt =====
-- What consoleread of Xv6/kernel/console.c delivers.
use os_project.Prelude.{
  ℕ, zero, suc, ◌+◌, ◌%◌, ◌^◌, ◌≤◌, ◌<◌, ◌≡◌, ◌≢◌, refl, ap, ◌∙◌, Bool, false, some, List, [], ◌∷◌,
  length, get_elem?, ◌==◌, ltb, arith,
}
use mathlib.Core.Path.{subst}
use os_project.Console.{
  Console, input_buf_size, incr, decr, distance, newline, ctrl_d, Reading, consoleread,
}
use os_project.Console.Editing.{IsValid, entered, branch}

-- A read in the buffer `c` has delivered the list and left `d`.
pub record Got (c : Console) (l : List ℕ) (d : Console) : Type 0 where
  pub valid : IsValid d
  pub w : d.w ≡ c.w
  pub e : d.e ≡ c.e
  pub in_lines : length l ≤ distance c.r c.w
  pub delivered : (k : ℕ) → k < length l → get_elem? l k ≡ some (entered c k)

none_yet : (c d : Console) → IsValid d → d.w ≡ c.w → d.e ≡ c.e → Got c [] d
none_yet c d v e f = record {
  valid = v;
  w = e;
  e = f;
  in_lines = omega arith;
  delivered = λ k lt. absurd (ground arith);
}

advanced-IsValid : (c : Console) → IsValid c → c.r ≢ c.w → IsValid (record c { r = incr c.r })
advanced-IsValid c v ne =
    let r_word = v.r_word in
    let w_word = v.w_word in
    let e_word = v.e_word in
    let order = v.in_order in
    let fits = v.fits in
    record {
      r_word = omega arith;
      w_word = w_word;
      e_word = e_word;
      in_order = omega arith;
      fits = omega arith;
    }

one_more :
    (c d : Console) (l : List ℕ)
    → IsValid c
    → c.r ≢ c.w
    → Got (record c { r = incr c.r }) l d
    → Got c (c.buf (c.r % input_buf_size) ∷ l) d
one_more c d l v ne g =
    let r_word = v.r_word in
    let w_word = v.w_word in
    let le = g.in_lines in
    record { valid = g.valid; w = g.w; e = g.e; in_lines = omega arith; delivered = at_place }
  where
    here : (r : ℕ) → r < 2 ^ 32 → r ≡ (r + 0) % 2 ^ 32
    here r lt = omega arith

    there : (r k : ℕ) → (incr r + k) % 2 ^ 32 ≡ (r + suc k) % 2 ^ 32
    there r k = omega arith

    at_place :
        (k : ℕ)
        → k < length (c.buf (c.r % input_buf_size) ∷ l)
        → get_elem? (c.buf (c.r % input_buf_size) ∷ l) k ≡ some (entered c k)
    at_place zero lt = ap (λ j. some (c.buf (j % input_buf_size))) (here c.r v.r_word)
    at_place (suc k) lt =
        g.delivered k (ground arith) ∙ ap (λ j. some (c.buf (j % input_buf_size))) (there c.r k)

put_back-IsValid : (c : Console) → IsValid c → IsValid (record c { r = decr (incr c.r) })
put_back-IsValid c v =
    let same : c.r ≡ decr (incr c.r) = (let r_word = v.r_word in omega arith) in
    subst (λ r. IsValid (record c { r = r })) same
      (record {
        r_word = v.r_word;
        w_word = v.w_word;
        e_word = v.e_word;
        in_order = v.in_order;
        fits = v.fits;
      })

-- However `consoleread` on a valid buffer ends, what it has copied out is the oldest characters that
-- were entered, in order, and none behind the write counter; the buffer stays valid, with the same
-- write and edit counters.
pub consoleread-Got :
    (faults : ℕ → Bool) (killed : Bool) (n target : ℕ) (c : Console)
    → IsValid c
    → (let o = consoleread faults killed n target c in Got c o.1 o.2)
unfolding consoleread
consoleread-Got faults killed zero target c v = none_yet c c v refl refl
consoleread-Got faults killed (suc m) target c v =
    let ch = c.buf (c.r % input_buf_size) in
    let d : Console = record c { r = incr c.r } in
    branch Ends (c.r == c.w) _ _
      (λ empty.
        branch Ends killed _ _ (λ e. none_yet c c v refl refl) (λ e. none_yet c c v refl refl))
      (λ some_there.
        let ne = apart c.r c.w some_there in
        let w = advanced-IsValid c v ne in
        branch Ends (ch == ctrl_d) _ _
          (λ e.
            branch (λ (k : Console). Got c [] k) (ltb (suc m) target) (record d { r = decr d.r }) d
              (λ e. none_yet c (record d { r = decr d.r }) (put_back-IsValid c v) refl refl)
              (λ e. none_yet c d w refl refl))
          (λ e.
            branch Ends (faults (suc m)) _ _ (λ e. none_yet c d w refl refl)
              (λ e.
                branch Ends (ch == newline) _ _
                  (λ e. one_more c d [] v ne (none_yet d d w refl refl))
                  (λ e. one_more c _ _ v ne (consoleread-Got faults killed m target d w)))))
  where
    Ends : Reading × List ℕ × Console → Type 0
    Ends o = Got c o.1 o.2

    apart : (a b : ℕ) → (a == b) ≡ false → a ≢ b
    apart a b e = ground arith
