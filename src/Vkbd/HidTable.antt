-- ===== src/Vkbd/HidTable.antt =====
-- src/vkbd/usb-gadget.h: the HID codes of keys, each with the key's number, in the source's order.
use keyd_fork.Common.{ℕ, List, [], ◌∷◌, ◌++◌, ◌==◌, if◌then◌else◌}

unfoldable pub hid_codes_1 : List (ℕ × ℕ)
hid_codes_1 =
    (1, 41)
    ∷ (2, 30)
    ∷ (3, 31)
    ∷ (4, 32)
    ∷ (5, 33)
    ∷ (6, 34)
    ∷ (7, 35)
    ∷ (8, 36)
    ∷ (9, 37)
    ∷ (10, 38)
    ∷ (11, 39)
    ∷ (12, 45)
    ∷ (13, 46)
    ∷ (14, 42)
    ∷ (15, 43)
    ∷ (16, 20)
    ∷ (17, 26)
    ∷ (18, 8)
    ∷ (19, 21)
    ∷ (20, 23)
    ∷ (21, 28)
    ∷ (22, 24)
    ∷ (23, 12)
    ∷ (24, 18)
    ∷ (25, 19)
    ∷ (26, 47)
    ∷ (27, 48)
    ∷ (28, 40)
    ∷ (29, 224)
    ∷ (30, 4)
    ∷ (31, 22)
    ∷ (32, 7)
    ∷ (33, 9)
    ∷ (34, 10)
    ∷ (35, 11)
    ∷ (36, 13)
    ∷ (37, 14)
    ∷ (38, 15)
    ∷ (39, 51)
    ∷ (40, 52)
    ∷ (41, 53)
    ∷ (42, 225)
    ∷ (43, 49)
    ∷ (44, 29)
    ∷ (45, 27)
    ∷ (46, 6)
    ∷ (47, 25)
    ∷ (48, 5)
    ∷ []

unfoldable pub hid_codes_2 : List (ℕ × ℕ)
hid_codes_2 =
    (49, 17)
    ∷ (50, 16)
    ∷ (51, 54)
    ∷ (52, 55)
    ∷ (53, 56)
    ∷ (54, 229)
    ∷ (55, 85)
    ∷ (56, 226)
    ∷ (57, 44)
    ∷ (58, 57)
    ∷ (59, 58)
    ∷ (60, 59)
    ∷ (61, 60)
    ∷ (62, 61)
    ∷ (63, 62)
    ∷ (64, 63)
    ∷ (65, 64)
    ∷ (66, 65)
    ∷ (67, 66)
    ∷ (68, 67)
    ∷ (69, 83)
    ∷ (70, 71)
    ∷ (71, 95)
    ∷ (72, 96)
    ∷ (73, 97)
    ∷ (74, 86)
    ∷ (75, 92)
    ∷ (76, 93)
    ∷ (77, 94)
    ∷ (78, 87)
    ∷ (79, 89)
    ∷ (80, 90)
    ∷ (81, 91)
    ∷ (82, 98)
    ∷ (83, 99)
    ∷ (85, 148)
    ∷ (86, 100)
    ∷ (87, 68)
    ∷ (88, 69)
    ∷ (89, 135)
    ∷ (90, 146)
    ∷ (91, 147)
    ∷ (92, 138)
    ∷ (93, 136)
    ∷ (94, 139)
    ∷ (96, 88)
    ∷ (97, 228)
    ∷ (98, 84)
    ∷ []

unfoldable pub hid_codes_3 : List (ℕ × ℕ)
hid_codes_3 =
    (99, 70)
    ∷ (100, 230)
    ∷ (102, 74)
    ∷ (103, 82)
    ∷ (104, 75)
    ∷ (105, 80)
    ∷ (106, 79)
    ∷ (107, 77)
    ∷ (108, 81)
    ∷ (109, 78)
    ∷ (110, 73)
    ∷ (111, 76)
    ∷ (113, 127)
    ∷ (114, 129)
    ∷ (115, 128)
    ∷ (116, 102)
    ∷ (117, 103)
    ∷ (118, 215)
    ∷ (119, 72)
    ∷ (121, 133)
    ∷ (122, 144)
    ∷ (123, 145)
    ∷ (124, 137)
    ∷ (125, 227)
    ∷ (126, 231)
    ∷ (127, 101)
    ∷ (129, 121)
    ∷ (131, 122)
    ∷ (132, 119)
    ∷ (133, 124)
    ∷ (134, 116)
    ∷ (135, 125)
    ∷ (136, 126)
    ∷ (137, 123)
    ∷ (138, 117)
    ∷ (179, 182)
    ∷ (180, 183)
    ∷ (183, 104)
    ∷ (184, 105)
    ∷ (185, 106)
    ∷ (186, 107)
    ∷ (187, 108)
    ∷ (188, 109)
    ∷ (189, 110)
    ∷ (190, 111)
    ∷ (191, 112)
    ∷ (192, 113)
    ∷ (193, 114)
    ∷ []

unfoldable pub hid_codes_4 : List (ℕ × ℕ)
hid_codes_4 = (194, 115) ∷ []

unfoldable pub hid_codes : List (ℕ × ℕ)
unfolding hid_codes_1 hid_codes_2 hid_codes_3 hid_codes_4
hid_codes = hid_codes_1 ++ (hid_codes_2 ++ (hid_codes_3 ++ (hid_codes_4)))

-- An index that is not named holds 0.
unfoldable pub find_hid : ℕ → List (ℕ × ℕ) → ℕ
find_hid code [] = 0
find_hid code ((key, hid) ∷ es) = let rest = find_hid code es in if key == code then hid else rest

unfoldable pub hid_table : ℕ → ℕ
unfolding hid_codes find_hid
hid_table code = find_hid code hid_codes
