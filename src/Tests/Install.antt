-- ===== src/Tests/Install.antt =====
-- Two hosts that an installation works on at once, for the tests of src/joebot/server/server.go.
use joebot.Prelude.{◌+◌, ◌*◌, ◌≡◌, ◌≤◌, ◌⊎◌, refl, [], ◌∷◌}
use joebot.Install.Ends.{bulk_install_never_stuck, bulk_install_limit, bulk_install_steps, GoesOn}
use joebot.Install.Goroutines.{Reaches, begun, further, running, steps_to_go}
use joebot.Install.Limit.{
  Bulk, uploading, installing, launches, sends, move, change_nth, send_next, no_hosts_yet,
}

abbrev two_launched : Bulk
two_launched = record { phases = installing ∷ (uploading ∷ []); limit = 2; received = 0 }

two_reached : Reaches 2 3 two_launched
unfolding move no_hosts_yet change_nth send_next
two_reached = further (further (further begun launches refl) (sends 0) refl) launches refl

bulk_install_never_stuck_example : (two_launched.received ≡ 2 * 2) ⊎ GoesOn 2 two_launched
bulk_install_never_stuck_example = bulk_install_never_stuck 2 3 two_launched two_reached

bulk_install_limit_example :
    (two_launched.limit ≡ running two_launched) × (running two_launched ≤ 10)
bulk_install_limit_example = bulk_install_limit 2 3 two_launched two_reached

bulk_install_steps_example : 3 + steps_to_go 2 two_launched ≡ 6 * 2
bulk_install_steps_example = bulk_install_steps 2 3 two_launched two_reached
