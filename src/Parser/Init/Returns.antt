-- ===== src/Parser/Init/Returns.antt =====
-- src/config.c: config_init returns.
use keyd_fork.Common.{◌≡◌, refl, Result, ◌>>=◌, ok}
use keyd_fork.Parser.Sound.Passes.{config_init-Sound}
use keyd_fork.Config.{Config, Descriptor}
use keyd_fork.Macro.{Env}
use keyd_fork.Parser.Init.{config_init, zero_config}
use keyd_fork.Parser.Sound.{Sound}
use keyd_fork.Ini.{parse_kvp}
use keyd_fork.Parser.Layers.{config_add_layer, new_layer, plain_layer}
use keyd_fork.Text.Escape.{str_escape}
use keyd_fork.Parser.Expression.{macro_text, parse_command, parse_macro_expression}
use keyd_fork.Parser.Descriptor.{
  expand_fn, modifier_layer, parse_action, parse_arg, parse_args, parse_call, parse_descriptor,
  parse_function, parse_key_descriptor, parse_macro,
}
use keyd_fork.Parser.Sections.{
  add_id, alias_key, parse_alias, parse_alias_section, parse_id, parse_id_section, set_alias,
}
use keyd_fork.Parser.Function.{fn_args, fn_name, parse_fn, push_arg}
use keyd_fork.Parser.Index.{config_get_layer_index, find_layer}
use keyd_fork.Parser.Passes.{
  bind_entries, bind_section, bind_sections, config_parse_sections, config_parse_string,
  declare_section, declare_sections, is_layer_section,
}
use keyd_fork.Parser.Entry.{config_add_entry, set_aliased, set_key, set_layer_entry, split_layer}
use keyd_fork.Text.Utf8.{utf8_strlen, Utf8, utf8_read_char}
use keyd_fork.Ini.Parse.{
  add_section, ini_parse_string, lines_from, parse_entry, parse_line, parse_lines, trim_end,
}
use keyd_fork.Parser.Store.{add_descriptor, stored}
use keyd_fork.Parser.Actions.{actions, find_action}
use keyd_fork.Keys.Table.{keycode_table, keycodes_1, keycodes_2, keycodes_3, keycodes_4}
use keyd_fork.Keys.Names.{
  drop_last, find_key, find_keycode, find_sequence, lookup_keycode, parse_key_sequence,
  parse_modset,
}
use keyd_fork.Text.CString.{str_eq, tokens, has_prefix, last_byte, is_space, skip_space, atoi_16}

abbrev built : Result Config → Config
built (ok config) = config
built _ = zero_config

init_runs :
    (env : Env) (junk : Descriptor) → config_init env junk ≡ ok (built (config_init env junk))
unfolding actions add_descriptor add_id add_section alias_key atoi_16 bind_entries bind_section
    bind_sections config_add_entry config_add_layer config_get_layer_index config_init
    config_parse_sections config_parse_string declare_section declare_sections drop_last expand_fn
    find_action find_key find_keycode find_layer find_sequence fn_args fn_name has_prefix
    ini_parse_string is_layer_section is_space keycode_table keycodes_1 keycodes_2 keycodes_3
    keycodes_4 keyd_fork.Text.Utf8.utf8_read_char last_byte lines_from lookup_keycode macro_text
    modifier_layer new_layer parse_action parse_alias parse_alias_section parse_arg parse_args
    parse_call parse_command parse_descriptor parse_entry parse_fn parse_function parse_id
    parse_id_section parse_key_descriptor parse_key_sequence parse_kvp parse_line parse_lines
    parse_macro parse_macro_expression parse_modset plain_layer push_arg set_alias set_aliased
    set_key set_layer_entry skip_space split_layer stored str_eq str_escape tokens trim_end
    utf8_strlen ◌>>=◌
init_runs env junk = refl

-- config_init returns a sound configuration, whatever the environment and the memory that it finds.
pub config_init-returns :
    (env : Env) (junk : Descriptor) → (c : Config) × (config_init env junk ≡ ok c) × Sound c
config_init-returns env junk =
    let run = init_runs env junk in
    (built (config_init env junk), run, config_init-Sound env junk _ run)
