-- ===== src/Daemon/Client.antt =====
-- src/keyd.h and src/daemon.c: handle_client.
use keyd_fork.Common.{
  ℕ, Bool, true, false, ◌||◌, none, some, List, [], ◌∷◌, ltb, leb, ◌==◌, if◌then◌else◌, take,
  update, Result, ◌>>=◌, ok, aborted, use_after_free,
}
use keyd_fork.Text.CString.{until_nul}
use keyd_fork.Daemon.Engine.{play_macro}
use keyd_fork.Daemon.Listeners.{add_listener}
use keyd_fork.Parser.Entry.{kbd_eval}
use keyd_fork.Macro.Parse.{macro_parse}
use keyd_fork.Macro.{macro_execute}
use keyd_fork.Daemon.Input.{input}
use keyd_fork.Daemon.Configs.{reload}
use keyd_fork.Config.{Descriptor}
use keyd_fork.Daemon.{Daemon, ConfigEnt, World, emit, close, respond}

-- `ipc_other` is any other number.
pub data IpcType : Type 0 where
  ipc_success ipc_fail ipc_bind ipc_input ipc_macro ipc_reload ipc_layer_listen ipc_other : IpcType

-- `struct ipc_message`, whose data are 4096 bytes; `sz` of them count.
pub record IpcMessage : Type 0 where
  pub type : IpcType
  pub timeout : ℕ
  pub data' : List ℕ
  pub sz : ℕ

-- The loop that takes the newlines off the end.
unfoldable pub trim_newlines : List ℕ → List ℕ
trim_newlines [] = []
trim_newlines (c ∷ s) = elim (trim_newlines s) [
  | [] ↦ if c == 10 then [] else c ∷ []
  | e ∷ s' ↦ c ∷ e ∷ s'
]

-- send_success and send_fail.
unfoldable pub answer : Daemon → ℕ → Bool → Daemon
answer d con succeeded = emit (emit d (respond con succeeded)) (close con)

module _ (w : World) (junk : Descriptor) where
  unfoldable pub run_macro : Daemon → ℕ → ℕ → List ℕ → Result Daemon
  unfolding answer
  run_macro d con timeout s = macro_parse w.env s >>= (λ r. elim r [
    | none ↦ ok (answer d con false)
    | some m ↦ ok (answer (play_macro d (macro_execute w.env m timeout)) con true)
  ])

  -- The loop over the configurations: whether one took the binding.
  unfoldable pub bind_each : Daemon → List ℕ → List ConfigEnt → Result (Bool × Daemon)
  bind_each d s [] = ok (false, d)
  bind_each d s (e ∷ es) = elim (d.kbds e.kbd) [
    | none ↦ aborted use_after_free
    | some kbd ↦ (do
      (taken, config) ← kbd_eval w.env junk kbd.original_config kbd.config s
      (more, d') ←
          bind_each
            (record d { kbds = update d.kbds e.kbd (some (record kbd { config = config })) }) s es
      ok (taken || more, d'))
  ]

  -- The `switch`; `data` are the bytes that count.
  unfoldable pub serve : Daemon → ℕ → IpcType → ℕ → List ℕ → Result Daemon
  unfolding run_macro bind_each
  serve d con IpcType.ipc_macro timeout data' =
      run_macro d con timeout (until_nul (trim_newlines data'))
  serve d con IpcType.ipc_input timeout data' = do
    (typed, d') ← input w timeout d (until_nul data')
    ok (answer d' con typed)
  serve d con IpcType.ipc_reload timeout data' = do d' ← reload w d; ok (answer d' con true)
  serve d con IpcType.ipc_layer_listen timeout data' = add_listener d con
  serve d con IpcType.ipc_bind timeout data' = do
    (bound, d') ← bind_each d (until_nul data') d.configs
    ok (answer d' con bound)
  serve d con _ timeout data' = ok (answer d con false)

  unfoldable pub handle_client : Daemon → ℕ → IpcMessage → Result Daemon
  unfolding serve
  handle_client d con msg =
      if leb 4096 msg.sz
      then ok (answer d con false)
      else if ltb 1000000 msg.timeout
      then ok (answer d con false)
      else serve d con msg.type msg.timeout (take msg.sz msg.data')
