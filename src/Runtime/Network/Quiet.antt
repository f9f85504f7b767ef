-- ===== src/Runtime/Network/Quiet.antt =====
-- Looking an address up (GetIPAddress of pkg/cninetwork/cni_network.go) only reads.
use faasd.Prelude.{ℕ, String, refl, Bool, true, false, List, [], ◌∷◌, path_join}
use faasd.Effects.Calls.{Call, succeed}
use faasd.Effects.Frame.{KeepsAt, keeps-bind}
use faasd.Runtime.{Host}
use faasd.Runtime.Network.{
  get_ip_address, search_files, is_cni_result_for_pid, is_result_for, on_found, cni_dir,
}

module _ {W X : Type 0} (host : Host W) (view : W → String → X)
    (read_quiet : (dir j : String) → KeepsAt view j (host.files.read_dir dir))
    (open_quiet : (file j : String) → KeepsAt view j (host.files.open_file file)) where
  found-quiet :
      (file : String) (rest : Call W String) (j : String)
      → KeepsAt view j rest
      → (found : Bool) → KeepsAt view j (on_found host file rest found)
  found-quiet file rest j quiet true w = refl
  found-quiet file rest j quiet false w = quiet w

  search-quiet :
      (name : String) (pid : ℕ) (files : List String) (j : String)
      → KeepsAt view j (search_files host name pid files)
  unfolding search_files is_cni_result_for_pid
  search-quiet name pid [] j w = refl
  search-quiet name pid (file ∷ files) j w =
      keeps-bind view j (is_cni_result_for_pid host (path_join cni_dir file) name pid)
        (on_found host file (search_files host name pid files))
        (keeps-bind view j (host.files.open_file (path_join cni_dir file))
          (λ text. succeed (is_result_for name pid text)) (open_quiet (path_join cni_dir file) j)
          (λ text v. refl))
        (found-quiet file (search_files host name pid files) j (search-quiet name pid files j)) w

  pub get_ip_address-quiet :
      (name : String) (pid : ℕ) (j : String) → KeepsAt view j (get_ip_address host name pid)
  unfolding get_ip_address
  get_ip_address-quiet name pid j =
      keeps-bind view j (host.files.read_dir cni_dir) (search_files host name pid)
        (read_quiet cni_dir j) (λ files. search-quiet name pid files j)
