-- ===== src/Quotes/Dates.antt =====
-- Dates of the calendar as texts: `isIsoDateOnly` of src/quote/quote.constants.ts. `new Date` of such
-- a text gives back the same day exactly if the month has that day, in the Gregorian calendar.
use Prim.Native.Char.{code}
use Prim.Native.String.{String}
use backend_emd.Prelude.{
  ℕ, ◌+◌, ◌-◌, ◌*◌, ◌%◌, nat_eq, ◌==◌, leb, all, contains, Bool, false, not, ◌&&◌, ◌||◌, List, [],
  ◌∷◌, if◌then◌else◌,
}

unfoldable pub codes : String → List ℕ
codes String.[] = []
codes (String.◌∷◌ c s) = code c ∷ codes s

-- `\d`
abbrev pub is_digit : ℕ → Bool
is_digit c = leb 48 c && leb c 57

abbrev pub pair_of : ℕ → ℕ → ℕ
pair_of a b = (a - 48) * 10 + (b - 48)

abbrev pub is_leap_year : ℕ → Bool
is_leap_year year = year % 4 == 0 && (not (year % 100 == 0) || year % 400 == 0)

abbrev pub days_in_month : ℕ → ℕ → ℕ
days_in_month year month =
    if month == 2
    then if is_leap_year year then 29 else 28
    else if contains (4 ∷ 6 ∷ 9 ∷ 11 ∷ []) month
    then 30
    else 31

abbrev pub is_calendar_day : ℕ → ℕ → ℕ → Bool
is_calendar_day year month day =
    leb 1 month && (leb month 12 && (leb 1 day && leb day (days_in_month year month)))

-- `YYYY-MM-DD`
abbrev pub is_date : List ℕ → Bool
is_date (a ∷ b ∷ c ∷ d ∷ dash ∷ e ∷ f ∷ dash' ∷ g ∷ h ∷ []) =
    all is_digit (a ∷ b ∷ c ∷ d ∷ e ∷ f ∷ g ∷ h ∷ [])
    && (dash == 45
        && (dash' == 45
            && is_calendar_day (pair_of a b * 100 + pair_of c d) (pair_of e f) (pair_of g h)))
is_date _ = false

unfoldable pub is_iso_date_only : String → Bool
unfolding codes
is_iso_date_only s = is_date (codes s)
