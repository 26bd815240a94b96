-- ===== src/Cli/Status.antt =====
-- src/cli/main.cc: what the caller of `dafeng-cli setup` sees where the deployment fails.
use dafeng_wubi.Prelude.{ℕ, ◌<◌, ◌*◌, true, false, ◌++◌, Option, ◌≡◌, refl, arith, Bytes, codes}
use dafeng_wubi.Prelude.Int.{pos}
use dafeng_wubi.Cli.Launchd.{System, is_zero}
use dafeng_wubi.Cli.Setup.{find_share_dir, setup, process_status}

module _ (os : System) where
  -- Where deploy.sh ends by itself with an exit code other than 0, `setup` runs nothing more; but it returns the wait status, so that
  -- the process ends with the status 0, as after a success.
  pub setup-deploy_failed :
      (home : Option Bytes) (backend model_path : Bytes) (s : os.State) (code : ℕ)
      → let deploy = find_share_dir (λ p. os.exists p s) ++ codes "/deploy.sh" in
        os.exists deploy s ≡ true
        → 0 < code
        → (os.system deploy s).0 ≡ pos (code * 0x100)
        → ((setup os home backend model_path s).1 ≡ (os.system deploy s).1)
          × (process_status (setup os home backend model_path s).0 ≡ 0)
  unfolding setup
  setup-deploy_failed home backend model_path s code there failed e =
      let nonzero : is_zero (pos (code * 0x100)) ≡ false = ground arith in
      rw (setup, there, e, nonzero) (refl, omega arith)
