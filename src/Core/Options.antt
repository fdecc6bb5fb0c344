-- ===== src/Core/Options.antt =====
-- xpdk_core.c: initialisation options and error strings.
use libxpdk.Prelude.{
  ℕ, zero, suc, false, ◌&&◌, not, none, some, List, [], ◌∷◌, leb, ◌==◌, if◌then◌else◌, get_elem?, ℤ,
  pos, negsuc,
}
use Prim.Native.String.{String}
use libxpdk.Api.{Opts}

-- `XPDK_DEFAULT_RING_SIZE`, `XPDK_DEFAULT_POOL_SIZE`, `XPDK_DEFAULT_POLL_PERIOD_US` and
-- `XPDK_TURBO_POLL_PERIOD_US`
abbrev pub default_ring_size : ℕ
default_ring_size = 1024

abbrev pub default_pool_size : ℕ
default_pool_size = 1024

abbrev pub default_poll_period_us : ℕ
default_poll_period_us = 1000

abbrev pub turbo_poll_period_us : ℕ
turbo_poll_period_us = 0

-- `xpdk_opts_init`, at a pointer that is not NULL
unfoldable pub opts_init : Opts
opts_init = record {
  config_file = none;
  turbo_mode = false;
  cpu_core = negsuc 0;
  msg_ring_size = 0;
  msg_pool_size = 0;
  poll_period_us = default_poll_period_us;
}

-- The defaults that `xpdk_init_opts` puts in place of zeros
unfoldable pub set_defaults : Opts → Opts
set_defaults o = record o {
  msg_ring_size = if o.msg_ring_size == 0 then default_ring_size else o.msg_ring_size;
  msg_pool_size = if o.msg_pool_size == 0 then default_pool_size else o.msg_pool_size;
  poll_period_us =
      if o.poll_period_us == 0 && not o.turbo_mode
      then default_poll_period_us
      else o.poll_period_us;
}

-- The poll period that `xpdk_spdk_thread_main` registers the poller with
unfoldable pub poll_period : Opts → ℕ
poll_period o = if o.turbo_mode then turbo_poll_period_us else o.poll_period_us

-- How many messages a run of `xpdk_msg_process_poller` takes at most
unfoldable pub max_batch : Opts → ℕ
max_batch o = if o.turbo_mode then 32 else 1

-- `error_strings`
error_strings : List String
error_strings =
    "Success" ∷ "Invalid parameter" ∷ "Out of memory" ∷ "I/O error" ∷ "Device busy"
    ∷ "No such device" ∷ "QoS error" ∷ []

string_at : ℕ → List String → String
string_at i table = elim (get_elem? table i) [ none ↦ "Unknown error" | some e ↦ e ]

-- `xpdk_strerror`. The negation of the code does not wrap but at INT_MIN, which C leaves undefined.
unfoldable pub strerror : ℤ → String
unfolding error_strings string_at
strerror (pos zero) = string_at 0 error_strings
strerror (pos (suc n)) = "Unknown error"
strerror (negsuc n) = if leb 7 (suc n) then "Unknown error" else string_at (suc n) error_strings
