-- ===== src/Tests/CliTests.antt =====
-- src/cli/main.cc and src/client/client_c.cc at concrete inputs.
use dafeng_wubi.Prelude.{ℕ, ◌+◌, ◌==◌, true, [], ◌∷◌, some, none, ◌≡◌, refl, if◌then◌else◌, codes}
use dafeng_wubi.Prelude.Int.{pos, negsuc}
use dafeng_wubi.CommandLine.{parse_fuel}
use dafeng_wubi.Cli.{split, show_order, main, Call}
use dafeng_wubi.Cli.Launchd.{System, pause, resume}
use dafeng_wubi.Cli.Setup.{setup}
use dafeng_wubi.Cli.Attempts.{Resumed, resume-Resumed}
use dafeng_wubi.Client.{Client, rerank}
use dafeng_wubi.ClientC.{Caller, empty_result, dafeng_client_rerank, dafeng_rerank_result_free}
use dafeng_wubi.ClientC.Owned.{Handed, dafeng_client_rerank-Handed}
use dafeng_wubi.Tests.PlainPack.{plain_pack}
use dafeng_wubi.Tests.ClientTests.{dialer, clock, request, resp_frame, on_stream}

split_keeps_empty : split (codes "a,,b,") b',' ≡ codes "a" ∷ [] ∷ codes "b" ∷ []
unfolding split
split_keeps_empty = refl

order_line :
    show_order (codes "x" ∷ codes "y" ∷ []) (pos 1 ∷ negsuc 0 ∷ pos 0 ∷ pos 2 ∷ [])
    ≡ codes "y ? x ?"
unfolding show_order
order_line = refl

main_learn :
    main (codes "/d") (codes "learn" ∷ codes "--min-freq" ∷ codes "0" ∷ codes "--dry-run" ∷ [])
    ≡ some (Call.cmd_learn 1 true)
unfolding main parse_fuel
main_learn = refl

main_rerank_without_code :
    main (codes "/d") (codes "rerank" ∷ codes "--cands" ∷ codes "a" ∷ []) ≡ some (Call.returns 1)
unfolding main parse_fuel
main_rerank_without_code = refl

-- the first command ends with 1, the second with 5, the others with 0; the state counts them
abbrev launchd : System
launchd = record {
  State = ℕ;
  system = λ c n. (if n == 0 then pos 0x100 else if n == 1 then pos 0x500 else pos 0, n + 1);
  usleep = λ us n. n;
  exists = λ p n. true;
}

resume_at_the_second_attempt : resume launchd 501 (some (codes "/u")) 0 ≡ (0, 3)
unfolding resume
resume_at_the_second_attempt = refl

resume-Resumed_example :
    Resumed launchd 501 (some (codes "/u")) 0 (resume launchd 501 (some (codes "/u")) 0)
resume-Resumed_example = resume-Resumed launchd 501 (some (codes "/u")) 0

pause_when_not_loaded : pause launchd 501 0 ≡ (0, 1)
unfolding pause
pause_when_not_loaded = refl

setup_failed : setup launchd none [] [] 0 ≡ (pos 0x100, 1)
unfolding setup
setup_failed = refl

abbrev caller : Caller (Client dialer)
caller = record { live = 2; client = some (on_stream resp_frame); out_result = some empty_result }

dafeng_client_rerank-Handed_example :
    let done = dafeng_client_rerank plain_pack dialer true request (pos 30) clock caller in
    Handed true (rerank plain_pack dialer request 30 clock (on_stream resp_frame)).0 done
    × ((dafeng_rerank_result_free done.1).live ≡ 2)
dafeng_client_rerank-Handed_example =
    dafeng_client_rerank-Handed plain_pack dialer true request (pos 30) clock 2
      (on_stream resp_frame) empty_result
