-- ===== src/TcpServer.antt =====
-- src/internal/transport/tcp/server.go: a listener and the goroutines that its loop starts.
--
-- net is not part of the repository: `listen` is what net.Listen gives for an address, an error or a
-- listener of type L, and what Accept gives is the argument of `accept_step`, with `none` for an error.
-- A goroutine that runs a handler is the connection it was started with until it runs, at any time
-- later and in any order; a body that gives a lock up in between runs here without another one between.
use amy_queue.Prelude.{
  ℕ, suc, zero, String, Option, none, some, Bool, false, List, [], ◌∷◌, ◌++◌, ◌>>=◌, ◌⊎◌, inl, inr,
  get_elem?, if◌then◌else◌,
}

pub record Server (L : Type 0) : Type 0 where
  pub addr : String
  pub listener : Option L

-- The address and the error of net.Listen, which the message of the code's error names.
pub data StartError : Type 0 where
  listen_failed : String → String → StartError

module _ {L : Type 0} where
  unfoldable pub new_server : String → Server L
  new_server addr = record { addr = addr; listener = none }

  unfoldable pub start : (String → String ⊎ L) → Server L → Option StartError × Server L
  start listen s = elim (listen s.addr) [
    | inl err ↦ (some (listen_failed s.addr err), s)
    | inr ln ↦ (none, record s { listener = some ln })
  ]

  -- What Close does to a listener is an argument: none, or an error.
  unfoldable pub close : (L → Option String) → Server L → Option String
  close close_listener s = elim s.listener [ none ↦ none | some ln ↦ close_listener ln ]

-- A server after Start: whether its loop still accepts, the goroutines that have not run, and the
-- state that the handlers share.
pub record Running (C S : Type 0) : Type 0 where
  pub accepting : Bool
  pub goroutines : List C
  pub state : S

abbrev pub remove_at : {C : Type 0} → ℕ → List C → List C
remove_at i [] = []
remove_at zero (c ∷ cs) = cs
remove_at (suc i) (c ∷ cs) = c ∷ remove_at i cs

module _ {C S : Type 0} where
  -- One round of acceptLoop: an error of Accept ends it.
  unfoldable pub accept_step : Option C → Running C S → Running C S
  accept_step conn r =
      if r.accepting
      then (elim conn [
        | none ↦ record r { accepting = false }
        | some c ↦ record r { goroutines = r.goroutines ++ (c ∷ []) }
      ])
      else r

  -- The i-th of the goroutines runs; `none` is a panic, which stops the program.
  unfoldable pub handler_step : (C → S → Option S) → ℕ → Running C S → Option (Running C S)
  handler_step handler i r = elim (get_elem? r.goroutines i) [
    | none ↦ some r
    | some c ↦ do
      s ← handler c r.state
      some (record { accepting = r.accepting; goroutines = remove_at i r.goroutines; state = s })
  ]
