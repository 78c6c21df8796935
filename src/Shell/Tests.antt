-- ===== src/Shell/Tests.antt =====
-- Two command lines with hostile arguments.
use esos_webui.Common.{[], refl, some, ◌∷◌, ◌≡◌}
use esos_webui.Shell.Defs.{command_line, shell_single_quote}
use esos_webui.Shell.Posix.{shell_words}
use esos_webui.Shell.Quoting.{shell_words-command_line, shell_words-shell_single_quote}

quoting_tests :
    (command_line ("lvremove" ∷ "-f" ∷ "vg/a b" ∷ []) ≡ "lvremove -f 'vg/a b'")
    × (shell_single_quote "it's" ≡ "'it'\\''s'")
unfolding command_line shell_single_quote
quoting_tests = (refl, refl)

shell_words-command_line_example :
    shell_words (command_line ("pvcreate" ∷ "$(reboot); it's" ∷ []))
    ≡ some ("pvcreate" ∷ "$(reboot); it's" ∷ [])
shell_words-command_line_example = shell_words-command_line ("pvcreate" ∷ "$(reboot); it's" ∷ [])

shell_words-shell_single_quote_example :
    shell_words (shell_single_quote "a'b|c") ≡ some ("a'b|c" ∷ [])
shell_words-shell_single_quote_example = shell_words-shell_single_quote "a'b|c"
