-- ===== src/Gateway/World.antt =====
-- The clients of ClientObj/clientobj.cpp side by side: the inputs of all of them in the order in which
-- they come, each client with its own threads, and the calls of the handler in their order.
use console_master_rtpvoice.Prelude.{
  ℕ, ◌≡◌, refl, ap, sym, subst, ◌∙◌, Bool, false, Bool-cases, inl, inr, List, [], ◌∷◌, ◌++◌, map,
  ◌==◌, ==_refl, ==_iff, if◌then◌else◌, Run, ok, ok-same, bind-ok, ◌>>=◌, map_run,
}
use console_master_rtpvoice.Client.{Json}
use console_master_rtpvoice.Client.Parse.{Call}
use console_master_rtpvoice.Client.Wire.{Input}
use console_master_rtpvoice.Client.Steps.{Threads, input_step, client_run}

-- The threads of each socket.
abbrev pub put : (ℕ → Threads) → ℕ → Threads → ℕ → Threads
put w i t j = if i == j then t else w j

-- The inputs of one client.
abbrev pub only : ℕ → List (ℕ × Input) → List Input
only i [] = []
only i ((j, x) ∷ es) = if j == i then x ∷ only i es else only i es

-- The calls for one client.
abbrev pub calls_of : ℕ → List (ℕ × Call) → List Call
calls_of i [] = []
calls_of i ((j, c) ∷ cs) = if j == i then c ∷ calls_of i cs else calls_of i cs

module _ (json : Json) (has_callback : Bool) (junk : ℕ → List ℕ) where
  pub world_run : List (ℕ × Input) → (ℕ → Threads) → Run ((ℕ → Threads) × List (ℕ × Call))
  world_run [] w = ok (w, [])
  world_run ((i, x) ∷ es) w = input_step json has_callback i (junk i) x (w i) >>= λ (t, calls).
      map_run (λ (w', more). (w', map (λ c. (i, c)) calls ++ more)) (world_run es (put w i t))

  abbrev pub alone : ℕ → List Input → Threads → Run (Threads × List Call)
  alone i xs t = client_run json has_callback i (junk i) xs t

  alone-cons :
      (i : ℕ) (x : Input) (xs : List Input) (t t' : Threads) (calls : List Call)
      → alone i (x ∷ xs) t ≡ ok (t', calls)
      → (t1 : Threads) × (now more : List Call) × (input_step json has_callback i (junk i) x t
          ≡ ok (t1, now))
        × (alone i xs t1 ≡ ok (t', more))
        × (now ++ more ≡ calls)
  unfolding client_run
  alone-cons i x xs t t' calls e =
      let ((t1, now), step, rest) =
        bind-ok (input_step json has_callback i (junk i) x t)
          (λ (t1, now). map_run (λ (t'', more). (t'', now ++ more)) (alone i xs t1)) (t', calls)
          e in
      let ((t2, more), run, same) =
        bind-ok (alone i xs t1) (λ (t'', more). ok (t'', now ++ more)) (t', calls) rest in
      let whole = ok-same (t2, now ++ more) (t', calls) same in
      (t1, now, more, step, run ∙ ap (λ z. ok (z.0, more)) whole, ap (λ z. z.1) whole)

  calls_of-own :
      (i : ℕ) (now : List Call) (more : List (ℕ × Call))
      → calls_of i (map (λ c. (i, c)) now ++ more) ≡ now ++ calls_of i more
  calls_of-own i [] more = refl
  calls_of-own i (c ∷ now) more = rw (==_refl i, calls_of-own i now more) refl

  calls_of-other :
      (i j : ℕ) (now : List Call) (more : List (ℕ × Call))
      → (i == j) ≡ false
      → calls_of j (map (λ c. (i, c)) now ++ more) ≡ calls_of j more
  calls_of-other i j [] more e = refl
  calls_of-other i j (c ∷ now) more e = rw (e, calls_of-other i j now more e) refl

  -- What is left of the runs of the clients after the first step of one of them.
  rest_alone :
      (i : ℕ) (x : Input) (es : List (ℕ × Input)) (w ts : ℕ → Threads) (css : ℕ → List Call)
      (t : Threads) (more : List Call)
      → ((j : ℕ) → alone j (only j ((i, x) ∷ es)) (w j) ≡ ok (ts j, css j))
      → alone i (only i es) t ≡ ok (ts i, more)
      → (j : ℕ) → alone j (only j es) (put w i t j) ≡ ok (ts j, if i == j then more else css j)
  rest_alone i x es w ts css t more h rest j = elim (Bool-cases (i == j)) [
    | inl own ↦
        subst (λ k. alone k (only k es) (put w i t k) ≡ ok (ts k, if i == k then more else css k))
          ((==_iff i j).0 own)
          (ap (λ b. alone i (only i es) (if b then t else w i)) (==_refl i)
            ∙ rest
            ∙ ap (λ b. ok (ts i, if b then more else css i)) (sym (==_refl i)))
    | inr other ↦
        ap (λ b. alone j (only j es) (if b then t else w j)) other
        ∙ ap (λ b. alone j (if b then x ∷ only j es else only j es) (w j)) (sym other)
        ∙ h j
        ∙ ap (λ b. ok (ts j, if b then more else css j)) (sym other)
  ]

  all_calls :
      (i : ℕ) (css : ℕ → List Call) (now more : List Call) (calls : List (ℕ × Call))
      → now ++ more ≡ css i
      → ((j : ℕ) → calls_of j calls ≡ (if i == j then more else css j))
      → (j : ℕ) → calls_of j (map (λ c. (i, c)) now ++ calls) ≡ css j
  all_calls i css now more calls whole h j = elim (Bool-cases (i == j)) [
    | inl own ↦
        subst (λ k. calls_of k (map (λ c. (i, c)) now ++ calls) ≡ css k) ((==_iff i j).0 own)
          (calls_of-own i now calls
            ∙ ap (λ l. now ++ l) (h i ∙ ap (λ b. if b then more else css i) (==_refl i))
            ∙ whole)
    | inr other ↦
        calls_of-other i j now calls other ∙ h j ∙ ap (λ b. if b then more else css j) other
  ]

  -- Where each client alone comes to an end, so do all of them together, however their inputs are
  -- mixed: each is left as it would be alone, and the handler gets from each just the calls that it
  -- would make alone, in their order.
  pub world_run-alone :
      (es : List (ℕ × Input)) (w ts : ℕ → Threads) (css : ℕ → List Call)
      → ((i : ℕ) → alone i (only i es) (w i) ≡ ok (ts i, css i))
      → (w' : ℕ → Threads) × (calls : List (ℕ × Call)) × (world_run es w ≡ ok (w', calls))
        × ((i : ℕ) → (w' i ≡ ts i) × (calls_of i calls ≡ css i))
  unfolding world_run client_run
  world_run-alone [] w ts css h = (
    w,
    [],
    refl,
    λ i.
        let same = ok-same (w i, []) (ts i, css i) (h i) in
        (ap (λ z. z.0) same, ap (λ z. z.1) same),
  )
  world_run-alone ((i, x) ∷ es) w ts css h =
      let (t1, now, more, step, rest, whole) = alone-cons i x (only i es) (w i) (ts i) (css i) (
        ap (λ b. alone i (if b then x ∷ only i es else only i es) (w i)) (sym (==_refl i)) ∙ h i) in
      let (w', calls, run, each_one) =
        world_run-alone es (put w i t1) ts (λ j. if i == j then more else css j)
          (rest_alone i x es w ts css t1 more h rest) in
      (
        w',
        map (λ c. (i, c)) now ++ calls,
        ap
              (λ m. m >>= λ (t, cs).
                map_run (λ (w'', more'). (w'', map (λ c. (i, c)) cs ++ more'))
                  (world_run es (put w i t)))
              step
            ∙ ap (map_run (λ (w'', more'). (w'', map (λ c. (i, c)) now ++ more'))) run,
        λ j. ((each_one j).0, all_calls i css now more calls whole (λ k. (each_one k).1) j),
      )
