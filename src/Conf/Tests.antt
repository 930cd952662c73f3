-- ===== src/Conf/Tests.antt =====
-- The theorems on conf.c applied to a few paths.
use startup.Base.{true, some, List, [], ◌∷◌, ◌++◌, codes, Str, str_eq, ◌≡◌, refl}
use startup.Conf.{
  conf_ext_std, conf_ext_override, last_dot, is_name_before, is_conf_file_std,
  is_conf_file_override, is_conf_file, toggle_conf_name, conf_to_job_name, conf_dir, conf_file,
  ConfSource, conf_get_best_override,
}
use startup.Conf.Names.{toggle_conf_name-toggle_conf_name, conf_to_job_name-append}
use startup.Conf.Override.{searched, first_override, conf_get_best_override_first}

ssh_is_conf_file : is_conf_file (codes "/etc/init/ssh.conf") ≡ true
unfolding is_conf_file last_dot is_name_before str_eq
ssh_is_conf_file = refl

toggle_conf_name-toggle_conf_name_example :
    (other : Str) × (toggle_conf_name (codes "/etc/init/ssh.conf") ≡ some other)
    × (toggle_conf_name other ≡ some (codes "/etc/init/ssh.conf"))
    × (is_conf_file other ≡ true)
    × (is_conf_file_override other ≡ is_conf_file_std (codes "/etc/init/ssh.conf"))
    × (is_conf_file_std other ≡ is_conf_file_override (codes "/etc/init/ssh.conf"))
toggle_conf_name-toggle_conf_name_example =
    toggle_conf_name-toggle_conf_name (codes "/etc/init/ssh.conf") ssh_is_conf_file

conf_to_job_name-append_example :
    (conf_to_job_name
        (codes "/etc/init")
        (codes "/etc/init" ++ b'/' ∷ (codes "net/apache.2" ++ conf_ext_std))
      ≡ codes "net/apache.2")
    × (conf_to_job_name
          (codes "/etc/init")
          (codes "/etc/init" ++ b'/' ∷ (codes "net/apache.2" ++ conf_ext_override))
        ≡ codes "net/apache.2")
conf_to_job_name-append_example =
    conf_to_job_name-append (codes "/etc/init") (codes "net/apache.2") refl

abbrev sources : List ConfSource
sources =
    record { address = 1; type = conf_file; path = codes "/etc/init.conf" }
    ∷ record { address = 2; type = conf_dir; path = codes "/etc/init" }
    ∷ record { address = 3; type = conf_dir; path = codes "/usr/share" }
    ∷ []

conf_get_best_override_first_example :
    conf_get_best_override
      (λ path. str_eq path (codes "/usr/share/ssh.override"))
      (codes "ssh")
      3
      sources
    ≡ first_override
        (λ path. str_eq path (codes "/usr/share/ssh.override"))
        (codes "ssh")
        (searched 3 sources)
conf_get_best_override_first_example =
    conf_get_best_override_first (λ path. str_eq path (codes "/usr/share/ssh.override"))
      (codes "ssh") 3 sources
