-- ===== src/Server/Tests.antt =====
-- Runs of the log, the statistics and the file server, and an application of each theorem about them.
use dbslayer.Prelude.{
  starts_with, ◌⊎◌, false, true, if◌then◌else◌, Option, none, some, ◌≡◌, refl, List, [], ◌∷◌, Bytes,
  codes, arith, bytes_eq,
}
use dbslayer.Server.Log.{log_open, log_add, log_all, get_entries, entries_loop, append_entry}
use dbslayer.Server.Log.Latest.{get_entries-log_all}
use dbslayer.Server.Stats.{
  Event, request, tick, run, stat_init, stats_tojson, show_slice, shown_loop, stat_update,
  stats_tick,
}
use dbslayer.Server.Stats.Latest.{stats_tojson-run}
use dbslayer.Server.Files.{
  FileSystem, fileserver, not_found, contains, index_page, is_under, find_type, same_letters,
}
use dbslayer.Server.Files.Below.{Sent, fileserver-Sent, fileserver-file_response}

abbrev three_entries : List Bytes
three_entries = codes "{1}" ∷ codes "{2}" ∷ codes "{3}" ∷ []

latest_two : get_entries (log_all three_entries (log_open 2)) ≡ codes "[{2},{3}]"
unfolding get_entries log_add entries_loop append_entry bytes_eq
latest_two = refl

get_entries-log_all_example : get_entries (log_all three_entries (log_open 2)) ≡ codes "[{2},{3}]"
get_entries-log_all_example = get_entries-log_all 2 three_entries (omega arith) (ground arith)

-- 2 requests in the slice from 100 on, none from 110 on, 1 from 120 on, and 1 since 130
abbrev four_slices : List Event
four_slices = request ∷ request ∷ tick 110 ∷ tick 120 ∷ request ∷ tick 130 ∷ request ∷ []

latest_two_slices : stats_tojson 135 (run four_slices (stat_init 2 100)) ≡ record {
  total_requests = 4;
  hits = 0 ∷ 1 ∷ [];
  slices = 110 ∷ 120 ∷ [];
  start_time = 100;
  current_time = 135;
}
unfolding stats_tojson stat_init stat_update stats_tick show_slice shown_loop
latest_two_slices = refl

stats_tojson-run_example :
    ((stats_tojson 135 (run four_slices (stat_init 2 100))).total_requests ≡ 4)
    × ((stats_tojson 135 (run four_slices (stat_init 2 100))).hits ≡ 0 ∷ 1 ∷ [])
    × ((stats_tojson 135 (run four_slices (stat_init 2 100))).slices ≡ 110 ∷ 120 ∷ [])
stats_tojson-run_example =
    stats_tojson-run 2 100 135 four_slices (ground arith)
      (ground arith, (ground arith, (ground arith, tt))) (omega arith)

-- the base directory /www is a link to /srv, /www/a.html is a file in it, and /www/b.html a link to a
-- file elsewhere
abbrev real_name : Bytes → Option Bytes
unfolding bytes_eq
real_name path =
    if bytes_eq path (codes "/www")
    then some (codes "/srv")
    else if bytes_eq path (codes "/www/a.html")
    then some (codes "/srv/a.html")
    else if bytes_eq path (codes "/www/b.html")
    then some (codes "/srvx/b.html")
    else none

abbrev one_file : FileSystem
one_file = record {
  realpath = real_name;
  stat = λ path. some (record { size = 2; is_regular = true });
  file_open = λ path. some (codes "hi");
}

outside_is_denied : fileserver one_file (some (codes "/www")) (some (codes "/b.html")) ≡ not_found
unfolding fileserver index_page contains starts_with is_under bytes_eq real_name
outside_is_denied = refl

fileserver-Sent_example :
    (fileserver one_file (some (codes "/www")) (some (codes "/a.html")) ≡ not_found)
    ⊎ ((contains (codes "..") (codes "/a.html") ≡ false)
        × Sent one_file
            (codes "/www")
            (index_page (codes "/a.html"))
            (fileserver one_file (some (codes "/www")) (some (codes "/a.html"))))
fileserver-Sent_example = fileserver-Sent one_file (codes "/www") (codes "/a.html")

fileserver-file_response_example :
    fileserver one_file (some (codes "/www")) (some (codes "/a.html"))
    ≡ record { response_code = 200; content_type = codes "text/html"; body = codes "hi" }
unfolding index_page contains starts_with bytes_eq real_name find_type same_letters
fileserver-file_response_example =
    fileserver-file_response one_file (codes "/www") (codes "/a.html") (codes "/srv")
      (codes "a.html") (codes "hi") (record { size = 2; is_regular = true }) refl refl refl refl
      refl refl
