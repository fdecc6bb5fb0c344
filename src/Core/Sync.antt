-- ===== src/Core/Sync.antt =====
-- The shape of every synchronous call of the library: a message from the pool, its parameters, a
-- synchronous send, the result read from the message, and the message put back.
use libxpdk.Prelude.{ℕ, Option, none, some, if◌then◌else◌, ℤ, eq_ℤ}
use libxpdk.Api.{success, error_nomem}
use libxpdk.State.{MsgType, Msg, Sys}
use libxpdk.Spdk.{Spdk}
use libxpdk.Core.Messages.{set_msg, msg_alloc, msg_free}
use libxpdk.Core.Poller.{msg_send_sync}

-- `(rc == XPDK_SUCCESS) ? … : rc`
abbrev pub on_success : (Msg → ℤ) → ℤ → Msg → ℤ
on_success value rc msg = if eq_ℤ rc success then value msg else rc

module _ {R P W : Type 0} (spdk : Spdk R P W) (fuel : ℕ) where
  -- The call once its message `m` is allocated and filled in
  unfoldable pub send_and_free : ℕ → (ℤ → Msg → ℤ) → Sys R P W → Option ℤ × Sys R P W
  send_and_free m result s =
      let (rc, s₁) = msg_send_sync spdk fuel m s in
      elim rc [
        | none ↦ (none, s₁)
        | some status ↦ (some (result status (s₁.msgs m)), msg_free spdk m s₁)
      ]

  unfoldable pub sync_call :
      MsgType → (Msg → Msg) → (ℤ → Msg → ℤ) → Sys R P W → Option ℤ × Sys R P W
  unfolding send_and_free
  sync_call type fill result s = elim (msg_alloc spdk type s) [
    | none ↦ (some error_nomem, s)
    | some (m, s₁) ↦ send_and_free m result (set_msg m (fill (s₁.msgs m)) s₁)
  ]
