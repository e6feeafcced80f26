-- ===== src/Tests/Texts.antt =====
-- The functions of Go's packages on texts, and the setters of a pool, on small inputs.
use mock_server.Prelude.{◌≡◌, refl, true, false, [], ◌∷◌}
use mock_server.Util.Text.{join_path}
use mock_server.Util.TextPieces.{size, drop_text, take_text}
use mock_server.Coderun.Script.{equal_fold, trim_space, replace_quotes}
use mock_server.Coderun.Docker.{has_prefix, last_line}
use mock_server.Brokers.Pools.{
  set_queue_config, set_read_config, set_write_config, RabbitMqMessagePool,
}
use mock_server.Brokers.Registry.{new_rabbitmq_message_pool}
use mock_server.Tests.Pools.{codec}

equal_fold_runtype : equal_fold "Runtype" "RunType" ≡ true
unfolding equal_fold
equal_fold_runtype = refl

equal_fold_longer : equal_fold "Script" "Scripts" ≡ false
unfolding equal_fold
equal_fold_longer = refl

trim_space_both : trim_space " \t a b \n\n" ≡ "a b"
unfolding trim_space
trim_space_both = refl

replace_quotes_dict : replace_quotes "{'a': 'b'}" ≡ "{\"a\": \"b\"}"
unfolding replace_quotes
replace_quotes_dict = refl

join_path_empty : join_path ("/root" ∷ "" ∷ "f.py" ∷ []) ≡ "/root/f.py"
unfolding join_path
join_path_empty = refl

slices : (size "abc" ≡ 3) × (drop_text 1 "abc" ≡ "bc") × (take_text 2 "abc" ≡ "ab")
slices = (refl, refl, refl)

has_prefix_tag : (has_prefix "worker:latest" "worker" ≡ true) × (has_prefix "work" "worker" ≡ false)
unfolding has_prefix
has_prefix_tag = (refl, refl)

last_line_of_three : last_line ("a" ∷ "b" ∷ "c" ∷ []) ≡ "c"
unfolding last_line
last_line_of_three = refl

abbrev pool : RabbitMqMessagePool codec.Table
pool = new_rabbitmq_message_pool codec "p" "q"

-- Setting the configurations that a pool has changes nothing.
set_own_configs :
    set_queue_config pool.qcfg (set_read_config pool.rcfg (set_write_config pool.wcfg pool)) ≡ pool
unfolding set_queue_config set_read_config set_write_config
set_own_configs = refl
