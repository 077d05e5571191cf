-- ===== src/Service/Tests.antt =====
-- The services as the kernel boots them.
use acharya_os.Base.{zero, suc, ◌≡◌, refl, arith, false, some, List, [], ◌∷◌, get_or-replicate, ap}
use acharya_os.Kstring.{codes, has_text, copy_text, copy_loop, str_eq, strcmp}
use acharya_os.Log.{boot}
use acharya_os.Service.{init, register, find, startup_all, service_at, blank, Entry}
use acharya_os.Service.Startup.{HasOwnNames, startup_all_lem, after_startup}
use acharya_os.Service.Counts.{
  Call, stop_one, restart_one, disable_one, start_all, all_starts, perform_all, AllCounted,
  calls-AllCounted,
}

init-HasOwnNames : HasOwnNames (init boot)
unfolding init register find copy_text copy_loop str_eq strcmp
init-HasOwnNames zero h = refl
init-HasOwnNames (suc zero) h = refl
init-HasOwnNames (suc (suc zero)) h = refl
init-HasOwnNames (suc (suc (suc i))) h =
    let nameless : has_text (service_at (init boot) (suc (suc (suc i)))).name ≡ false =
      ap (λ (e : Entry). has_text e.name) (get_or-replicate 13 i blank) in
    cc

clock_second : find (codes "clock") (init boot) ≡ some 1
unfolding init register find copy_text copy_loop str_eq strcmp
clock_second = refl

startup_all_lem_example :
    service_at (startup_all 7 (init boot)) 1 ≡ after_startup 7 (service_at (init boot) 1)
startup_all_lem_example = startup_all_lem 7 (init boot) 1 init-HasOwnNames (omega arith)

abbrev calls : List Call
calls =
    start_all 1
    ∷ stop_one (codes "clock") 2
    ∷ disable_one (codes "logger")
    ∷ restart_one (codes "clock") 3
    ∷ []

calls-AllCounted_example : AllCounted (all_starts calls) (perform_all calls (init boot))
calls-AllCounted_example = calls-AllCounted calls boot (omega arith)
