-- ===== src/Upgrade.antt =====
-- upgrade.c: the start of the upgrade script in a process of its own.
pub mod Child
use koruza_driver.Prelude.{
  ℕ, List, [], ◌∷◌, ◌++◌, Bool, true, false, not, if◌then◌else◌, ℤ, pos, negsuc,
}

-- What `fork` returns: a failure, the parent's side, or the child's.
pub data Fork : Type 0 where
  fork_failed parent child : Fork

-- The system as `upgrade_start` sees it: which side of the fork this is, and whether the calls of
-- the child succeed.
pub record Upgrading : Type 0 where
  pub fork : Fork
  pub setsid : Bool
  pub chdir : Bool
  pub execl : Bool

pub data ProcessCall : Type 0 where
  ignore_sighup ignore_sigpipe call_setsid call_chdir : ProcessCall
  call_umask : ℕ → ProcessCall
  redirect_stdin redirect_stdout redirect_stderr : ProcessCall
  call_execl : ProcessCall

-- How the process goes on: `upgrade_start` returns, the process exits, or it becomes the script.
pub data UpgradeResult : Type 0 where
  returned : ℤ → UpgradeResult
  exited executed : UpgradeResult

unfoldable pub upgrade_init : ℤ
upgrade_init = pos 0

-- What the child does behind a successful `chdir`.
abbrev pub exec_script : Upgrading → UpgradeResult × List ProcessCall
exec_script u = (
  if not u.execl then exited else executed,
  redirect_stdin ∷ redirect_stdout ∷ redirect_stderr ∷ call_execl ∷ [],
)

abbrev pub behind :
    List ProcessCall → UpgradeResult × List ProcessCall → UpgradeResult × List ProcessCall
behind calls (r, more) = (r, calls ++ more)

abbrev pub run_child : Upgrading → UpgradeResult × List ProcessCall
run_child u = behind (ignore_sighup ∷ ignore_sigpipe ∷ call_umask 0 ∷ call_setsid ∷ []) (
    if not u.setsid
    then (exited, [])
    else behind (call_chdir ∷ []) (if not u.chdir then (exited, []) else exec_script u))

abbrev pub on_side : Fork → Upgrading → UpgradeResult × List ProcessCall
on_side fork_failed u = (returned (negsuc 0), [])
on_side parent u = (returned (pos 0), [])
on_side child u = run_child u

unfoldable pub upgrade_start : Upgrading → UpgradeResult × List ProcessCall
upgrade_start u = on_side u.fork u
