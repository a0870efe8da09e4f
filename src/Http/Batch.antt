-- ===== src/Http/Batch.antt =====
-- ExecuteToolBatch of tool_handler.go, whatever the order in which its goroutines run.
use go_agent_api.Base.{
  ℕ, zero, suc, Bool, true, false, ◌||◌, ◌<◌, length, Option, none, some, List, [], ◌∷◌, map, any,
  ◌==◌, ◌≡◌, refl, ap, ◌∙◌, sym, arith, if◌then◌else◌,
}
use go_agent_api.Entity.Any.{Any}
use go_agent_api.Entity.Message.{ToolCall}
use go_agent_api.Tools.Registry.{History}
use go_agent_api.Tools.Steady.{IsSteady, execute_tool-Steady}
use go_agent_api.Store.World.{World}
use go_agent_api.Http.Request.{Request, Context}
use go_agent_api.Http.Response.{batch_results, json, on_decoded}
use go_agent_api.Http.App.{App, Draws}
use go_agent_api.Http.Tools.{
  execute_call, result_of, write_result, call_at, run_goroutine, run_goroutines, no_results,
  execute_batch,
}

==_suc : (a b : ℕ) → (suc a == suc b) ≡ (a == b)
==_suc a b = ground arith

suc_==-zero : (a : ℕ) → (suc a == 0) ≡ false
suc_==-zero a = ground arith

sooner_or_later : (a b c : Bool) → (a || (b || c)) ≡ ((if b then true else a) || c)
sooner_or_later true true c = refl
sooner_or_later true false c = refl
sooner_or_later false true c = refl
sooner_or_later false false c = refl

zero_== : (a : ℕ) (b : Bool) → b ≡ (0 == suc a || b)
zero_== a b = ground arith

write_first :
    (done : Bool) (r : Option Any) (results : List (Option Any))
    → write_result 0 r ((if done then r else none) ∷ results) ≡ r ∷ results
unfolding write_result
write_first true none results = refl
write_first true (some x) results = refl
write_first false none results = refl
write_first false (some x) results = refl

module _ (f : ToolCall → Option Any) where
  -- The results, once the goroutines of some indexes have written theirs.
  written : (ℕ → Bool) → List ToolCall → List (Option Any)
  written seen [] = []
  written seen (call ∷ rest) =
      (if seen 0 then f call else none) ∷ written (λ idx. seen (suc idx)) rest

  written-none : (calls : List ToolCall) → written (λ idx. false) calls ≡ no_results calls
  unfolding written
  written-none [] = refl
  written-none (call ∷ rest) = ap (λ xs. none ∷ xs) (written-none rest)

  written-all :
      (seen : ℕ → Bool) (calls : List ToolCall)
      → ((idx : ℕ) → idx < length calls → seen idx ≡ true)
      → written seen calls ≡ map f calls
  unfolding written
  written-all seen [] h = refl
  written-all seen (call ∷ rest) h = rw (h 0 (omega arith)) (
      ap (λ xs. f call ∷ xs)
        (written-all (λ idx. seen (suc idx)) rest (λ idx p. h (suc idx) (omega (arith, p)))))

  written-ext :
      (seen seen' : ℕ → Bool) (calls : List ToolCall)
      → ((idx : ℕ) → seen idx ≡ seen' idx)
      → written seen calls ≡ written seen' calls
  unfolding written
  written-ext seen seen' [] h = refl
  written-ext seen seen' (call ∷ rest) h =
      rw
        (
          h 0,
          written-ext (λ idx. seen (suc idx)) (λ idx. seen' (suc idx)) rest (λ idx. h (suc idx)),
        )
        refl

  write_at : ℕ → Option ToolCall → List (Option Any) → List (Option Any)
  write_at idx none results = results
  write_at idx (some call) results = write_result idx (f call) results

  write_at-suc :
      (idx : ℕ) (call : Option ToolCall) (r : Option Any) (results : List (Option Any))
      → write_at (suc idx) call (r ∷ results) ≡ r ∷ write_at idx call results
  unfolding write_at write_result
  write_at-suc idx none r results = refl
  write_at-suc idx (some call) r results = refl

  -- One goroutine more.
  write-written :
      (idx : ℕ) (seen : ℕ → Bool) (calls : List ToolCall)
      → write_at idx (call_at idx calls) (written seen calls)
        ≡ written (λ i. idx == i || seen i) calls
  unfolding written write_at
  write-written zero seen [] = refl
  write-written (suc idx) seen [] = refl
  write-written zero seen (call ∷ rest) =
      write_first (seen 0) (f call) (written (λ i. seen (suc i)) rest)
      ∙ ap (λ xs. f call ∷ xs) (written-ext _ _ rest (λ i. zero_== i (seen (suc i))))
  write-written (suc idx) seen (call ∷ rest) =
      let others =
        write-written idx (λ i. seen (suc i)) rest
        ∙ written-ext _ (λ i. suc idx == suc i || seen (suc i)) rest
            (λ i. ap (λ b. b || seen (suc i)) (sym (==_suc idx i))) in
      write_at-suc idx (call_at idx rest) _ (written (λ i. seen (suc i)) rest) ∙ λ k.
      (if sym (suc_==-zero idx) k || seen 0 then f call else none) ∷ others k

-- The schedule runs the goroutine of each of so many indexes.
unfoldable pub Covers : List ℕ → ℕ → Type 0
Covers schedule n = (idx : ℕ) → idx < n → any (λ j. j == idx) schedule ≡ true

module _ (app : App) (draws : Draws) (context : Context) where
  -- what a call returns when it is the first one
  abbrev pub alone : ToolCall → Option Any
  alone call = result_of (execute_call app draws context call []).0

  run_goroutine_lem :
      (idx : ℕ) (call : Option ToolCall) (results : List (Option Any)) (h : History)
      → IsSteady app.registry
      → (run_goroutine app draws context idx call (results, h)).0 ≡ write_at alone idx call results
  unfolding execute_call write_at
  run_goroutine_lem idx none results h steady = refl
  run_goroutine_lem idx (some call) results h steady =
      ap (λ r. write_result idx (result_of r) results)
        ((execute_tool-Steady app.registry app.unmarshal draws.duration _ steady).same h [])

  run_goroutines_lem :
      (schedule : List ℕ) (calls : List ToolCall) (seen : ℕ → Bool) (h : History)
      → IsSteady app.registry
      → (run_goroutines app draws context schedule calls (written alone seen calls, h)).0
        ≡ written alone (λ i. any (λ j. j == i) schedule || seen i) calls
  unfolding run_goroutines
  run_goroutines_lem [] calls seen h steady = refl
  run_goroutines_lem (idx ∷ rest) calls seen h steady =
      let call = call_at idx calls in
      let after = run_goroutine app draws context idx call (written alone seen calls, h) in
      ap (λ rs. (run_goroutines app draws context rest calls (rs, after.1)).0)
        (run_goroutine_lem idx call _ h steady ∙ write-written alone idx seen calls)
      ∙ (run_goroutines_lem rest calls (λ i. idx == i || seen i) after.1 steady
          ∙ written-ext alone _ _ calls
              (λ i. sooner_or_later (any (λ j. j == i) rest) (idx == i) (seen i)))

  -- When what the tools return does not depend on the calls made before, a batch is answered with
  -- the result that each of its calls has alone, in the order of the calls and nil where that is an
  -- error, whatever the schedule of the goroutines, if each of them runs.
  pub execute_batch_lem :
      (request : Request) (calls : List ToolCall) (w : World)
      → IsSteady app.registry
      → app.codec.tool_calls request.body ≡ some calls
      → Covers draws.schedule (length calls)
      → (execute_batch app draws context request w).0 ≡ json 200 (batch_results (map alone calls))
  unfolding execute_batch on_decoded Covers
  execute_batch_lem request calls w steady decoded covers = rw decoded (
      ap (λ rs. json 200 (batch_results rs))
        (ap (λ rs. (run_goroutines app draws context draws.schedule calls (rs, w.history)).0)
            (sym (written-none alone calls))
          ∙ (run_goroutines_lem draws.schedule calls (λ idx. false) w.history steady
              ∙ written-all alone _ calls (λ idx p. rw (covers idx p) refl))))
