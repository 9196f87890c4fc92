-- ===== src/Daemon/ClientTests.antt =====
-- Runs of a client and of a store, and the theorems at inputs that meet their hypotheses.
use routercli.Base.{
  ℕ, ◌+◌, arith, true, false, Option, none, some, List, [], ◌∷◌, ◌++◌, ◌≡◌, inl, inr, refl, Text,
  codes,
}
use routercli.Daemon.Protocol.{kind_farewell, farewell_rebooting}
use routercli.Daemon.Remote.Once.{
  Event, frame, calls, forces, closes, reads, watched, told, run, run_told_once,
}
use routercli.Daemon.Store.{Functions, Store, new_store, submit, serve, collect, abandon, close}
use routercli.Daemon.Store.Run.{Reaches, here, submits, serves, collects, abandons, closes}
use routercli.Daemon.Store.Run.{step as move}
use routercli.Daemon.Store.Serial.{IsSerial, store-IsSerial}

abbrev unmarshal : Text → Option Text
unmarshal body = some body

abbrev reboots : List Event
reboots = frame (some (7 ∷ [])) ∷ frame (some (kind_farewell ∷ farewell_rebooting)) ∷ []

-- The text is read, and then the connection fails, in each of the ways.
abbrev fails : List Event
fails =
    reads
    ∷ frame none
    ∷ calls true (none ∷ [])
    ∷ calls false []
    ∷ forces (codes "bob") (codes "show") true 5 false
    ∷ closes true
    ∷ reads
    ∷ []

told_reboot : told (run unmarshal watched reboots) ≡ farewell_rebooting ∷ []
unfolding run
told_reboot = refl

run_told_once_example :
    ((run unmarshal watched (reboots ++ fails)).client.done ≡ true)
    × (told (run unmarshal watched (reboots ++ fails)) ≡ farewell_rebooting ∷ [])
run_told_once_example = run_told_once unmarshal reboots fails farewell_rebooting [] told_reboot

-- Each call adds its number, and returns what was there.
abbrev adds : Functions ℕ ℕ
adds k n = (n, n + k)

abbrev two_calls : Store ℕ ℕ
two_calls = submit 2 (submit 1 (new_store 0))

abbrev served : Store ℕ ℕ
served = serve adds 1 (serve adds 2 two_calls)

abbrev ended : Store ℕ ℕ
ended = abandon 1 (close (collect 2 0 served))

ended_run : Reaches adds (new_store 0) ended
unfolding serve collect abandon
ended_run =
    move
      (move
        (move
          (move
            (move
              (move (move here (submits 1 (λ h. h) (λ h. h))) (submits 2 (ground arith) (λ h. h)))
              (serves 2 (inl refl) refl))
            (serves 1 (inl refl) refl))
          (collects 2 0 (inr (inl refl))))
        closes)
      (abandons 1 2 (inl refl) refl)

store-IsSerial_example : IsSerial adds 0 ended
store-IsSerial_example = store-IsSerial adds 0 ended_run
