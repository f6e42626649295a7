-- ===== src/Manager/Closed.antt =====
-- Input that is written, and input that was closed (`write_to_shell_blocking` and `send_stdin_eof_blocking` of
-- src/native_runtime.rs).
use mathlib.Core.Path.{subst}
use mathlib.Core.Option.{some-injective}
use ferrous_framework.Base.{
  ℕ, ◌≡◌, refl, ap, ◌∙◌, String, Bool, true, false, if◌then◌else◌, append-nil, take, sym, ◌⊎◌,
  Option, none, some, List, [], ◌∷◌, ◌++◌, Result, ok, err, length, arith, inl, inr, Bool-cases,
  Option-cases,
}
use ferrous_framework.Base.Action.{continue, state_of}
use ferrous_framework.Base.Assoc.{lookup, put, lookup-put_self}
use ferrous_framework.Shell.Record.{is_running}
use ferrous_framework.Shell.Persist.{Host}
use ferrous_framework.Manager.Defs.{
  Error, not_live, not_running, not_written, no_stdin, no_stdin_eof, updated, Entry, Manager, Io,
  persist_then_publish, with_shell,
}
use ferrous_framework.Manager.Access.{
  InputResult, write_blocking, write_to_pipe, live_shell_backend, with_newline, write_to_shell,
  closed_record, send_stdin_eof,
}
use ferrous_framework.Manager.Moves.{persist_then_publish-same}

-- nothing can be written to the shell any more, and its input cannot be closed again
abbrev pub IsClosed : Host → String → Manager → Type 0
IsClosed host shell_id m =
    ((accepts : Option ℕ) (bytes : List ℕ)
      → write_blocking accepts shell_id bytes m ≡ (err no_stdin, m))
    × ((io : Io) → send_stdin_eof host io shell_id m ≡ (err no_stdin_eof, m))

module _ (host : Host) (shell_id : String) where
  no_input :
      (e : Entry) (m : Manager)
      → lookup shell_id m.entries ≡ some e
      → e.input ≡ none
      → IsClosed host shell_id m
  unfolding write_blocking send_stdin_eof
  no_input e m at empty = (
    λ accepts bytes. rw (at, write_blocking, empty) refl,
    λ io. rw (at, send_stdin_eof, empty) refl,
  )

  module _ (io : Io) where
    -- the state behind an EOF: unchanged without an input, and else without it, even if the record is not written
    eof_state :
        (m : Manager) (e : Entry) (input : Option ℕ)
        → lookup shell_id m.entries ≡ some e
        → e.input ≡ input
        → (e' : Entry) × (lookup shell_id (state_of (send_stdin_eof host io shell_id m)).entries
            ≡ some e')
          × (e'.input ≡ none)
    unfolding send_stdin_eof
    eof_state m e none at empty =
        let same : state_of (send_stdin_eof host io shell_id m) ≡ m =
          rw (at, send_stdin_eof, empty) refl in
        (e, ap (λ x. lookup shell_id x.entries) same ∙ at, empty)
    eof_state m e (some handle) at full =
        let shell = closed_record io e.shell in
        let e' : Entry = record e { input = none; shell = shell } in
        let m₁ = with_shell shell_id (record e { input = none }) shell m in
        let o = persist_then_publish host io updated shell e.record_path m₁ in
        let run : send_stdin_eof host io shell_id m ≡ continue o (λ _ m'. (ok true, m')) =
          rw (at, send_stdin_eof, full) refl in
        let same : (state_of (send_stdin_eof host io shell_id m)).entries
            ≡ put shell_id e' m.entries =
          ap (λ r. r.1.entries) run
          ∙ state-continue o
          ∙ persist_then_publish-same host io updated shell e.record_path m₁ in
        (e', ap (lookup shell_id) same ∙ lookup-put_self shell_id e' m.entries, refl)
      where
        state-continue :
            (o : Result Error (Unit {0}) × Manager)
            → (state_of (continue {B = Bool} o (λ _ m'. (ok true, m')))).entries
              ≡ (state_of o).entries
        state-continue (ok a, m₂) = refl
        state-continue (err x, m₂) = refl

    -- After `send_stdin_eof` on a shell that the manager has, even one that failed to write the
    -- record, each further write to it fails for want of an input, each further EOF fails, and
    -- neither changes the state.
    pub send_stdin_eof-IsClosed :
        (m : Manager) (e : Entry)
        → lookup shell_id m.entries ≡ some e
        → IsClosed host shell_id (state_of (send_stdin_eof host io shell_id m))
    send_stdin_eof-IsClosed m e at =
        let (e', at', empty) = eof_state m e e.input at refl in
        no_input e' (state_of (send_stdin_eof host io shell_id m)) at' empty

-- what is sent for `bytes`, with a newline if it is asked for
abbrev pub sent_bytes : Bool → List ℕ → List ℕ
sent_bytes append_newline bytes = bytes ++ (if append_newline then 10 ∷ [] else [])

-- How a writing at `m` ends. Without an error all the bytes are in the input of a running entry. With one, nothing was
-- written, or so many bytes as the stream took before it failed.
abbrev pub Written :
    Option ℕ → String → List ℕ → Bool → Manager → Result Error InputResult × Manager → Type 0
Written accepts shell_id bytes append_newline m (ok r, m') =
    (e : Entry) × (handle : ℕ) × (lookup shell_id m.entries ≡ some e)
    × (e.input ≡ some handle)
    × (is_running e.shell.status ≡ true)
    × (accepts ≡ none)
    × (m' ≡ record m { written = m.written ++ (handle, sent_bytes append_newline bytes) ∷ [] })
    × (r.bytes_written ≡ length (sent_bytes append_newline bytes))
    × (r.newline_appended ≡ append_newline)
Written accepts shell_id bytes append_newline m (err x, m') =
    ((m' ≡ m)
      × ((e : Entry)
          → lookup shell_id m.entries ≡ some e
          → (is_running e.shell.status ≡ false) ⊎ (e.input ≡ none)))
    ⊎ ((e : Entry) × (handle : ℕ) × (n : ℕ) × (lookup shell_id m.entries ≡ some e)
        × (e.input ≡ some handle)
        × (is_running e.shell.status ≡ true)
        × (accepts ≡ some n)
        × (m' ≡ record m {
          written = m.written ++ (handle, take n (sent_bytes append_newline bytes)) ∷ [];
        }))

with_newline-eq :
    (append_newline : Bool) (bytes : List ℕ)
    → with_newline append_newline bytes ≡ sent_bytes append_newline bytes
with_newline-eq true bytes = refl
with_newline-eq false bytes = sym (append-nil bytes)

-- `write_to_shell` ends in one of two ways. It succeeds: the shell is a running entry with an
-- input that takes all bytes, the bytes, and behind them a byte 10 exactly if a newline is asked
-- for, are appended to that input, the rest of the state is unchanged, and the result counts those
-- bytes. Or it fails: the state is unchanged, and an entry of that id is not running or has no
-- input, or a running entry with an input took the first of those bytes and no more, as many as
-- its stream takes before it fails, and the rest of the state is unchanged.
pub write_to_shell-Written :
    (accepts : Option ℕ) (shell_id : String) (bytes : List ℕ) (append_newline : Bool) (m : Manager)
    → Written accepts shell_id bytes append_newline m
        (write_to_shell accepts shell_id bytes append_newline m)
write_to_shell-Written accepts shell_id bytes append_newline m =
    elim (Option-cases (lookup shell_id m.entries)) [
      | inl at ↦
          ending (err not_live, m) (unfold write_to_shell live_shell_backend in ground arith)
            (inl (refl, λ y q. absurd (ground arith)))
      | inr (x, at) ↦ elim (Bool-cases (is_running x.shell.status)) [
        | inr e ↦
            ending (err not_running, m) (unfold write_to_shell live_shell_backend in ground arith)
              (inl (refl, λ y q. inl (stopped x y at q e)))
        | inl runs ↦ elim (Option-cases x.input) [
          | inl e ↦
              ending (err no_stdin, m)
                (unfold write_to_shell live_shell_backend write_to_pipe write_blocking in
                  ground arith)
                (inl (refl, λ y q. inr (no_stream x y at q e)))
          | inr (handle, full) ↦ elim (Option-cases accepts) [
            | inr (n, e) ↦
                ending
                  (
                    err not_written,
                    record m {
                      written =
                          m.written ++ (handle, take n (with_newline append_newline bytes)) ∷ [];
                    },
                  )
                  (unfold write_to_shell live_shell_backend write_to_pipe write_blocking in
                    ground arith)
                  (inr (
                    x,
                    handle,
                    n,
                    at,
                    full,
                    runs,
                    e,
                    rw (with_newline-eq append_newline bytes) refl,
                  ))
            | inl e ↦
                ending
                  (
                    ok (record {
                      shell_id = shell_id;
                      backend = x.shell.backend;
                      accepted = true;
                      bytes_written = length (with_newline append_newline bytes);
                      newline_appended = append_newline;
                      eof_sent = false;
                    }),
                    record m {
                      written = m.written ++ (handle, with_newline append_newline bytes) ∷ [];
                    },
                  )
                  (unfold write_to_shell live_shell_backend write_to_pipe write_blocking in
                    ground arith)
                  (
                    x,
                    handle,
                    at,
                    full,
                    runs,
                    e,
                    rw (with_newline-eq append_newline bytes) refl,
                    rw (with_newline-eq append_newline bytes) refl,
                    refl,
                  )
          ]
        ]
      ]
    ]
  where
    ending :
        (o : Result Error InputResult × Manager)
        → write_to_shell accepts shell_id bytes append_newline m ≡ o
        → Written accepts shell_id bytes append_newline m o
        → Written accepts shell_id bytes append_newline m
            (write_to_shell accepts shell_id bytes append_newline m)
    ending o q = subst (Written accepts shell_id bytes append_newline m) (sym q)

    stopped :
        (x y : Entry)
        → lookup shell_id m.entries ≡ some x
        → lookup shell_id m.entries ≡ some y
        → is_running x.shell.status ≡ false
        → is_running y.shell.status ≡ false
    stopped x y at q e =
        subst (λ z. is_running z.shell.status ≡ false) (some-injective x y (sym at ∙ q)) e

    no_stream :
        (x y : Entry)
        → lookup shell_id m.entries ≡ some x
        → lookup shell_id m.entries ≡ some y
        → x.input ≡ none
        → y.input ≡ none
    no_stream x y at q e = subst (λ z. z.input ≡ none) (some-injective x y (sym at ∙ q)) e
