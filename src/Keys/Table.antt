-- ===== src/Keys/Table.antt =====
-- src/keys.c: the table of the names of keys, in the order of its index. An index that the table does
-- not name has no entry here.
use Prim.Native.String.{String}
use mathlib.Core.Option
use keyd_fork.Common.{ℕ, Option, none, some, List, [], ◌∷◌, ◌++◌}
use keyd_fork.Text.CString.{codes}

-- `struct keycode_table_ent` with its index; `none` is NULL.
pub record Keycode : Type 0 where
  pub code : ℕ
  pub name : List ℕ
  pub alt_name : Option (List ℕ)
  pub shifted_name : Option (List ℕ)

abbrev pub ent : ℕ → String → Option String → Option String → Keycode
ent code name alt shifted = record {
  code = code;
  name = codes name;
  alt_name = Option.map codes alt;
  shifted_name = Option.map codes shifted;
}

unfoldable pub keycodes_1 : List Keycode
keycodes_1 =
    ent 1 "esc" (some "escape") none
    ∷ ent 2 "1" none (some "!")
    ∷ ent 3 "2" none (some "@")
    ∷ ent 4 "3" none (some "#")
    ∷ ent 5 "4" none (some "$")
    ∷ ent 6 "5" none (some "%")
    ∷ ent 7 "6" none (some "^")
    ∷ ent 8 "7" none (some "&")
    ∷ ent 9 "8" none (some "*")
    ∷ ent 10 "9" none (some "(")
    ∷ ent 11 "0" none (some ")")
    ∷ ent 12 "-" (some "minus") (some "_")
    ∷ ent 13 "=" (some "equal") (some "+")
    ∷ ent 14 "backspace" none none
    ∷ ent 15 "tab" none none
    ∷ ent 16 "q" none (some "Q")
    ∷ ent 17 "w" none (some "W")
    ∷ ent 18 "e" none (some "E")
    ∷ ent 19 "r" none (some "R")
    ∷ ent 20 "t" none (some "T")
    ∷ ent 21 "y" none (some "Y")
    ∷ ent 22 "u" none (some "U")
    ∷ ent 23 "i" none (some "I")
    ∷ ent 24 "o" none (some "O")
    ∷ ent 25 "p" none (some "P")
    ∷ ent 26 "[" (some "leftbrace") (some "{")
    ∷ ent 27 "]" (some "rightbrace") (some "}")
    ∷ ent 28 "enter" none none
    ∷ ent 29 "leftcontrol" (some "") none
    ∷ ent 30 "a" none (some "A")
    ∷ ent 31 "s" none (some "S")
    ∷ ent 32 "d" none (some "D")
    ∷ ent 33 "f" none (some "F")
    ∷ ent 34 "g" none (some "G")
    ∷ ent 35 "h" none (some "H")
    ∷ ent 36 "j" none (some "J")
    ∷ ent 37 "k" none (some "K")
    ∷ ent 38 "l" none (some "L")
    ∷ ent 39 ";" (some "semicolon") (some ":")
    ∷ ent 40 "'" (some "apostrophe") (some "\"")
    ∷ ent 41 "`" (some "grave") (some "~")
    ∷ ent 42 "leftshift" (some "") none
    ∷ ent 43 "\\" (some "backslash") (some "|")
    ∷ ent 44 "z" none (some "Z")
    ∷ ent 45 "x" none (some "X")
    ∷ ent 46 "c" none (some "C")
    ∷ ent 47 "v" none (some "V")
    ∷ ent 48 "b" none (some "B")
    ∷ ent 49 "n" none (some "N")
    ∷ ent 50 "m" none (some "M")
    ∷ ent 51 "," (some "comma") (some "<")
    ∷ ent 52 "." (some "dot") (some ">")
    ∷ ent 53 "/" (some "slash") (some "?")
    ∷ ent 54 "rightshift" none none
    ∷ ent 55 "kpasterisk" none none
    ∷ ent 56 "leftalt" (some "") none
    ∷ ent 57 "space" none none
    ∷ ent 58 "capslock" none none
    ∷ ent 59 "f1" none none
    ∷ ent 60 "f2" none none
    ∷ ent 61 "f3" none none
    ∷ ent 62 "f4" none none
    ∷ ent 63 "f5" none none
    ∷ []

unfoldable pub keycodes_2 : List Keycode
keycodes_2 =
    ent 64 "f6" none none
    ∷ ent 65 "f7" none none
    ∷ ent 66 "f8" none none
    ∷ ent 67 "f9" none none
    ∷ ent 68 "f10" none none
    ∷ ent 69 "numlock" none none
    ∷ ent 70 "scrolllock" none none
    ∷ ent 71 "kp7" none none
    ∷ ent 72 "kp8" none none
    ∷ ent 73 "kp9" none none
    ∷ ent 74 "kpminus" none none
    ∷ ent 75 "kp4" none none
    ∷ ent 76 "kp5" none none
    ∷ ent 77 "kp6" none none
    ∷ ent 78 "kpplus" none none
    ∷ ent 79 "kp1" none none
    ∷ ent 80 "kp2" none none
    ∷ ent 81 "kp3" none none
    ∷ ent 82 "kp0" none none
    ∷ ent 83 "kpdot" none none
    ∷ ent 84 "iso-level3-shift" none none
    ∷ ent 85 "zenkakuhankaku" none none
    ∷ ent 86 "102nd" none none
    ∷ ent 87 "f11" none none
    ∷ ent 88 "f12" none none
    ∷ ent 89 "ro" none none
    ∷ ent 90 "katakana" none none
    ∷ ent 91 "hiragana" none none
    ∷ ent 92 "henkan" none none
    ∷ ent 93 "katakanahiragana" none none
    ∷ ent 94 "muhenkan" none none
    ∷ ent 95 "kpjpcomma" none none
    ∷ ent 96 "kpenter" none none
    ∷ ent 97 "rightcontrol" none none
    ∷ ent 98 "kpslash" none none
    ∷ ent 99 "sysrq" none none
    ∷ ent 100 "rightalt" none none
    ∷ ent 101 "linefeed" none none
    ∷ ent 102 "home" none none
    ∷ ent 103 "up" none none
    ∷ ent 104 "pageup" none none
    ∷ ent 105 "left" none none
    ∷ ent 106 "right" none none
    ∷ ent 107 "end" none none
    ∷ ent 108 "down" none none
    ∷ ent 109 "pagedown" none none
    ∷ ent 110 "insert" none none
    ∷ ent 111 "delete" none none
    ∷ ent 112 "macro" none none
    ∷ ent 113 "mute" none none
    ∷ ent 114 "volumedown" none none
    ∷ ent 115 "volumeup" none none
    ∷ ent 116 "power" none none
    ∷ ent 117 "kpequal" none none
    ∷ ent 118 "kpplusminus" none none
    ∷ ent 119 "pause" none none
    ∷ ent 120 "scale" none none
    ∷ ent 121 "kpcomma" none none
    ∷ ent 122 "hangeul" none none
    ∷ ent 123 "hanja" none none
    ∷ ent 124 "yen" none none
    ∷ ent 125 "leftmeta" (some "") none
    ∷ ent 126 "rightmeta" none none
    ∷ []

unfoldable pub keycodes_3 : List Keycode
keycodes_3 =
    ent 127 "compose" none none
    ∷ ent 128 "stop" none none
    ∷ ent 129 "again" none none
    ∷ ent 130 "props" none none
    ∷ ent 131 "undo" none none
    ∷ ent 132 "front" none none
    ∷ ent 133 "copy" none none
    ∷ ent 134 "open" none none
    ∷ ent 135 "paste" none none
    ∷ ent 136 "find" none none
    ∷ ent 137 "cut" none none
    ∷ ent 138 "help" none none
    ∷ ent 139 "menu" none none
    ∷ ent 140 "calc" none none
    ∷ ent 141 "setup" none none
    ∷ ent 142 "sleep" none none
    ∷ ent 143 "wakeup" none none
    ∷ ent 144 "file" none none
    ∷ ent 145 "sendfile" none none
    ∷ ent 146 "deletefile" none none
    ∷ ent 147 "xfer" none none
    ∷ ent 148 "prog1" none none
    ∷ ent 149 "prog2" none none
    ∷ ent 150 "www" none none
    ∷ ent 151 "msdos" none none
    ∷ ent 152 "coffee" none none
    ∷ ent 153 "display" none none
    ∷ ent 154 "cyclewindows" none none
    ∷ ent 155 "mail" none none
    ∷ ent 156 "bookmarks" none none
    ∷ ent 157 "computer" none none
    ∷ ent 158 "back" none none
    ∷ ent 159 "forward" none none
    ∷ ent 160 "closecd" none none
    ∷ ent 161 "ejectcd" none none
    ∷ ent 162 "ejectclosecd" none none
    ∷ ent 163 "nextsong" none none
    ∷ ent 164 "playpause" none none
    ∷ ent 165 "previoussong" none none
    ∷ ent 166 "stopcd" none none
    ∷ ent 167 "record" none none
    ∷ ent 168 "rewind" none none
    ∷ ent 169 "phone" none none
    ∷ ent 170 "iso" none none
    ∷ ent 171 "config" none none
    ∷ ent 172 "homepage" none none
    ∷ ent 173 "refresh" none none
    ∷ ent 174 "exit" none none
    ∷ ent 175 "move" none none
    ∷ ent 176 "edit" none none
    ∷ ent 177 "zoom" none none
    ∷ ent 178 "mouseback" none none
    ∷ ent 179 "kpleftparen" none none
    ∷ ent 180 "kprightparen" none none
    ∷ ent 181 "new" none none
    ∷ ent 182 "redo" none none
    ∷ ent 183 "f13" none none
    ∷ ent 184 "f14" none none
    ∷ ent 185 "f15" none none
    ∷ ent 186 "f16" none none
    ∷ ent 187 "f17" none none
    ∷ ent 188 "f18" none none
    ∷ ent 189 "f19" none none
    ∷ []

unfoldable pub keycodes_4 : List Keycode
keycodes_4 =
    ent 190 "f20" none none
    ∷ ent 191 "f21" none none
    ∷ ent 192 "f22" none none
    ∷ ent 193 "f23" none none
    ∷ ent 194 "f24" none none
    ∷ ent 195 "noop" none none
    ∷ ent 200 "playcd" none none
    ∷ ent 201 "pausecd" none none
    ∷ ent 202 "prog3" none none
    ∷ ent 203 "prog4" none none
    ∷ ent 204 "dashboard" none none
    ∷ ent 205 "suspend" none none
    ∷ ent 206 "close" none none
    ∷ ent 207 "play" none none
    ∷ ent 208 "fastforward" none none
    ∷ ent 209 "bassboost" none none
    ∷ ent 210 "print" none none
    ∷ ent 211 "hp" none none
    ∷ ent 212 "camera" none none
    ∷ ent 213 "sound" none none
    ∷ ent 214 "question" none none
    ∷ ent 215 "email" none none
    ∷ ent 216 "chat" none none
    ∷ ent 217 "search" none none
    ∷ ent 218 "connect" none none
    ∷ ent 219 "finance" none none
    ∷ ent 220 "sport" none none
    ∷ ent 221 "shop" none none
    ∷ ent 222 "voicecommand" none none
    ∷ ent 223 "cancel" none none
    ∷ ent 224 "brightnessdown" none none
    ∷ ent 225 "brightnessup" none none
    ∷ ent 226 "media" none none
    ∷ ent 227 "switchvideomode" none none
    ∷ ent 228 "kbdillumtoggle" none none
    ∷ ent 229 "kbdillumdown" none none
    ∷ ent 230 "kbdillumup" none none
    ∷ ent 231 "send" none none
    ∷ ent 232 "reply" none none
    ∷ ent 233 "forwardmail" none none
    ∷ ent 234 "save" none none
    ∷ ent 235 "documents" none none
    ∷ ent 236 "battery" none none
    ∷ ent 237 "bluetooth" none none
    ∷ ent 238 "wlan" none none
    ∷ ent 239 "uwb" none none
    ∷ ent 240 "unknown" none none
    ∷ ent 241 "next" none none
    ∷ ent 242 "prev" none none
    ∷ ent 243 "cycle" none none
    ∷ ent 244 "auto" none none
    ∷ ent 245 "off" none none
    ∷ ent 246 "wwan" none none
    ∷ ent 247 "rfkill" none none
    ∷ ent 248 "micmute" none none
    ∷ ent 249 "leftmouse" none none
    ∷ ent 250 "middlemouse" none none
    ∷ ent 251 "rightmouse" none none
    ∷ ent 252 "mouse1" none none
    ∷ ent 253 "mouse2" none none
    ∷ ent 254 "fn" none none
    ∷ ent 255 "mouseforward" none none
    ∷ []

unfoldable pub keycode_table : List Keycode
unfolding keycodes_1 keycodes_2 keycodes_3 keycodes_4
keycode_table = keycodes_1 ++ (keycodes_2 ++ (keycodes_3 ++ keycodes_4))
