-- ===== src/Main.antt =====
-- main.go: the commands, the handler that is served, and the loops of `cmdRun` and `cmdIndex` around
-- the scanner. Flags, signals, the HTTP server and logging are left out.
pub mod Follows
use coinnews_indexer.Prelude.{ℕ, zero, suc, Bool, not, if◌then◌else◌, List, [], ◌∷◌, bytes_beq}
use coinnews_indexer.Prelude.Int.{ℤ, pos, lez}
use coinnews_indexer.Codec.Types.{Bytes, Error, Result, ok, err}
use coinnews_indexer.Codec.Crypto.{Crypto}
use coinnews_indexer.Store.Interface.{Store, Io}
use coinnews_indexer.Scanner.{BlockSource, default_reorg_depth, run}

-- What `main` calls, with the arguments behind the command's name.
pub data Command : Type 0 where
  cmd_run_with : List Bytes → Command
  cmd_index_with : List Bytes → Command
  cmd_serve_with : List Bytes → Command
  usage : Command

command_of : Bytes → List Bytes → Command
command_of name args =
    if bytes_beq name (b'r' ∷ b'u' ∷ b'n' ∷ [])
    then cmd_run_with args
    else if bytes_beq name (b'i' ∷ b'n' ∷ b'd' ∷ b'e' ∷ b'x' ∷ [])
    then cmd_index_with args
    else if bytes_beq name (b's' ∷ b'e' ∷ b'r' ∷ b'v' ∷ b'e' ∷ [])
    then cmd_serve_with args
    else usage

-- `main`: without a command, `usage` exits before the switch.
unfoldable pub main : List Bytes → Command
unfolding command_of
main (program ∷ name ∷ args) = command_of name args
main _ = usage

-- 15*time.Second, in nanoseconds
abbrev pub default_poll : ℤ
default_poll = pos 15000000000

-- `if *poll <= 0` of `cmdRun`
unfoldable pub poll_or_default : ℤ → ℤ
poll_or_default poll = if lez poll (pos 0) then default_poll else poll

-- `buildHandler`, where `mux` is the http.ServeMux with some patterns, `H` http.Handler.
unfoldable pub build_handler : {H : Type 0} → (List (Bytes × H) → H) → Bool → H → H → H
build_handler mux serve_web web_handler api_handler =
    if not serve_web
    then api_handler
    else mux (
        (b'G' ∷ b'E' ∷ b'T' ∷ b' ' ∷ b'/' ∷ b'{' ∷ b'$' ∷ b'}' ∷ [], web_handler)
        ∷ (b'/' ∷ [], api_handler)
        ∷ [])

-- How `cmdIndex` ends, or that it has not after the rounds that were given.
pub data Exit : Type 0 where
  caught_up : Exit
  interrupted : Exit
  fatal : Error → Exit
  still_running : Exit

-- `fuel` is that of each run. `done` waits for the next tick, and says if the context is done first.
module _ {W : Type 0} (crypto : Crypto) (st : Store W) (client : BlockSource W)
    (done : W → Bool × W) (fuel : ℕ) (start : ℤ) where
  abbrev pub scan : Io W (Unit {0})
  scan = run crypto st client default_reorg_depth fuel start

  -- So many rounds of the goroutine of `cmdRun`, which only logs an error of the scanner.
  unfoldable pub cmd_run : ℕ → W → W
  cmd_run zero w = w
  cmd_run (suc rounds) w =
      let d = done (scan w).1 in let rest = cmd_run rounds d.1 in if d.0 then d.1 else rest

  -- `ctx.Err() != nil`
  abbrev pub stopped : Error → Result (Unit {0}) × W → Exit × W
  stopped e (err c, w) = (interrupted, w)
  stopped e (ok _, w) = (fatal e, w)

  abbrev pub after_scan : ℤ → (W → Exit × W) → Result (Unit {0}) × W → Exit × W
  after_scan poll again (err e, w) = stopped e (client.ctx_err w)
  after_scan poll again (ok _, w) =
      let d = done w in
      let rest = again d.1 in
      if lez poll (pos 0) then (caught_up, w) else if d.0 then (interrupted, d.1) else rest

  unfoldable pub cmd_index : ℤ → ℕ → W → Exit × W
  cmd_index poll zero w = (still_running, w)
  cmd_index poll (suc rounds) w = after_scan poll (cmd_index poll rounds) (scan w)
