-- ===== src/Pipe/Tests.antt =====
-- pipe.c round a wrap of its counters, and its theorems there.
use os_project.Prelude.{
  ℕ, ◌-◌, ◌^◌, ◌≡◌, ◌⊎◌, refl, Bool, true, false, Option, List, [], ◌∷◌, ◌++◌, arith, if◌then◌else◌,
  get_elem?,
}
use os_project.Pipe.{
  Pipe, on_read, on_write, returned, failed, asleep, put, pipewrite, write_loop, piperead,
  read_loop, pipeclose,
}
use os_project.Pipe.Queue.{contents, IsValid, Wrote, pipewrite-Wrote, put_lem}
use os_project.Pipe.Stream.{
  Read, piperead-Read, Event, send, receive, close, run, run-Balanced, step, sent, received, fetch,
}

abbrev source : ℕ → Option ℕ
source = get_elem? (7 ∷ 8 ∷ 9 ∷ [])

abbrev alive : ℕ → Bool
alive i = false

-- Empty, two bytes before both counters wrap.
abbrev late : Pipe
late = record {
  buf = λ i. 0;
  nread = 2 ^ 32 - 2;
  nwrite = 2 ^ 32 - 2;
  readopen = true;
  writeopen = true;
}

late-IsValid : IsValid late
late-IsValid = omega arith

wraps : (pipewrite source alive 3 late).2.nwrite ≡ 1
unfolding pipewrite write_loop put
wraps = refl

-- The fourth byte cannot be fetched: the count of three comes back.
write_fault : (pipewrite source alive 5 late).0 ≡ returned 3
unfolding pipewrite write_loop put
write_fault = refl

reader_gone : (pipewrite source alive 3 (pipeclose late false).1).0 ≡ failed
unfolding pipewrite write_loop put pipeclose
reader_gone = refl

abbrev three : List Event
three =
    send source alive 3 0 ∷ receive false 2 ∷ close true ∷ receive false 5 ∷ receive false 1 ∷ []

three_received : (run three late).1 ≡ 7 ∷ 8 ∷ 9 ∷ []
unfolding run step sent received fetch write_loop put piperead read_loop pipeclose
three_received = refl

put_lem_example : IsValid (put late 5) × (contents (put late 5) ≡ contents late ++ (5 ∷ []))
put_lem_example = put_lem late 5 late-IsValid refl

pipewrite-Wrote_example : Wrote source alive 0 3 late (pipewrite source alive 3 late)
pipewrite-Wrote_example = pipewrite-Wrote source alive 3 late late-IsValid

piperead-Read_example :
    (piperead (λ _. true) false 2 late
        ≡ ((if false then failed else asleep 0 on_read), [], [], late))
      × (contents late ≡ [])
      × (late.writeopen ≡ true)
    ⊎ ((out : ℕ × List ℕ × Pipe) × (piperead (λ _. true) false 2 late
          ≡ (returned out.0, out.1, on_write ∷ [], out.2))
        × Read (λ _. true) 0 2 late out)
piperead-Read_example = piperead-Read (λ _. true) false 2 late late-IsValid

run-Balanced_example :
    let (ins, outs, q) = run three late in IsValid q × (contents late ++ ins ≡ outs ++ contents q)
run-Balanced_example = run-Balanced three late late-IsValid
